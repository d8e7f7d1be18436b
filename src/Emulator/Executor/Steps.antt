-- ===== src/Emulator/Executor/Steps.antt =====
-- `Execute`, `Step` and `Run` of src/emulator/reference_executor.cpp. The packet that `Execute`
-- marks is local to `Step` and read by nobody after it.
use Prim.Native.String.{String, ◌++◌ as append}
use text.Mathlib.Text.{◌==◌ as str_eq}
use linx_model.Base.{
  ℕ, zero, suc, ◌+◌, ◌*◌, ◌%◌, ◌^◌, Bool, false, not, ◌||◌, Option, none, some, List, [], ◌∷◌, ◌==◌,
  ltb, leb, if◌then◌else◌,
}
use linx_model.Base.Int.{pos, to_u64}
use linx_model.Isa.Desc.{Tables}
use linx_model.Isa.Minst.{Minst}
use linx_model.Emulator.Context.{request_terminate, append_record, advance_cycle}
use linx_model.Emulator.Record.{make_minst_record}
use linx_model.Emulator.Executor.{
  get_unsigned_any, get_signed_any, resolve_block_kind, resolve_lane_id, is_tile_header,
  is_implemented, fetch_decode,
}
use linx_model.Emulator.Executor.Execute.{
  Context, Effect, signed_or_zero, unsigned_or_zero, source, write_result, start_block,
  start_vector, start_branch, stop_block, load_word, store_word, set_condition, set_register,
  copy_memory, fill_memory, tile_header,
}

-- The chain of mnemonics.
unfoldable pub dispatch : Minst → String → ℕ → Effect → Effect
unfolding get_signed_any get_unsigned_any write_result start_block start_vector start_branch
    stop_block load_word store_word set_condition set_register copy_memory fill_memory tile_header
dispatch inst kind current_pc e =
    let signed = λ (names : List String). to_u64 (signed_or_zero (get_signed_any inst names)) in
    let unsigned = λ (names : List String). unsigned_or_zero (get_unsigned_any inst names) in
    let is = str_eq inst.mnemonic in
    if is "C.BSTART.STD"
    then start_block inst current_pc e
    else if is "C.BSTART.VPAR"
    then start_vector "vpar" inst current_pc e
    else if is "C.BSTART.VSEQ"
    then start_vector "vseq" inst current_pc e
    else if is "C.BSTART"
    then start_branch inst current_pc e
    else if is "C.BSTOP"
    then stop_block inst e
    else if is "C.MOVI"
    then write_result inst (signed ("simm5" ∷ [])) e
    else if is "C.MOVR"
    then write_result inst (source inst e.ctx 0) e
    else if is "LUI"
    then write_result inst (signed ("simm20" ∷ "imm20" ∷ "simm" ∷ "imm" ∷ []) * 2 ^ 12 % 2 ^ 64) e
    else if is "HL.LUI"
    then write_result inst (unsigned ("imm32" ∷ "imm" ∷ []) % 2 ^ 32 * 2 ^ 32) e
    else if is "HL.LIU"
    then write_result inst (unsigned ("uimm32" ∷ "imm" ∷ []) % 2 ^ 32) e
    else if is "HL.LIS"
    then write_result inst (signed ("simm32" ∷ "imm" ∷ [])) e
    else if is "ADDI"
    then write_result inst
        ((source inst e.ctx 0 + signed ("uimm" ∷ "uimm12" ∷ "simm" ∷ "imms" ∷ "simm12" ∷ []))
          % 2 ^ 64)
        e
    else if is "LWI"
    then load_word inst e
    else if is "SWI"
    then store_word inst e
    else if is "SETC.NE"
    then set_condition (not (source inst e.ctx 0 == source inst e.ctx 1)) inst e
    else if is "SETC.LTU"
    then set_condition (ltb (source inst e.ctx 0) (source inst e.ctx 1)) inst e
    else if is "SSRSET"
    then set_register inst e
    else if is "MCOPY"
    then copy_memory inst e
    else if is "MSET"
    then fill_memory inst e
    else if is_tile_header inst || is "B.TEXT"
    then tile_header kind inst e
    else e

-- The context and the record before the chain.
unfoldable pub begin_execute : Minst → Context → Effect
unfolding make_minst_record resolve_block_kind resolve_lane_id
begin_execute inst ctx =
    let kind = resolve_block_kind inst ctx.state in
    record {
      ctx = record ctx {
        state = record ctx.state {
          insn_pc_next = inst.next_pc;
          insn_count = (ctx.state.insn_count + 1) % 2 ^ 64;
          block_kind = kind;
          lane_id = resolve_lane_id kind;
        };
      };
      commit = make_minst_record inst ctx.cycle kind (resolve_lane_id kind) none none;
    }

-- What follows the chain.
unfoldable pub finish_execute : Effect → Context
unfolding append_record
finish_execute e =
    let retired = record e.commit { lifecycle = "retired" } in
    append_record e.ctx (
      if e.ctx.terminated
      then record retired { trap = record retired.trap { valid = false } }
      else retired)

unfoldable pub execute : Minst → Context → Context
unfolding dispatch begin_execute finish_execute is_implemented request_terminate resolve_block_kind
execute inst ctx =
    if not (is_implemented inst)
    then request_terminate ctx (pos 1) (append "unsupported_instruction:" inst.mnemonic)
    else finish_execute
        (dispatch inst (resolve_block_kind inst ctx.state) ctx.state.pc (begin_execute inst ctx))

abbrev pub stops_at : Option ℕ → ℕ → Bool
stops_at none pc = false
stops_at (some stop_pc) pc = pc == stop_pc

-- Whether the run goes on, and the context.
unfoldable pub step : Tables → Option ℕ → Context → Bool × Context
unfolding fetch_decode execute request_terminate advance_cycle
step t stop_pc ctx =
    if ctx.terminated
    then (false, ctx)
    else if stops_at stop_pc ctx.state.pc
    then (false, request_terminate ctx ctx.exit_code "stop_pc")
    else elim (fetch_decode t ctx) [
      | none ↦ (false, request_terminate ctx (pos 1) "fetch_decode_failed")
      | some inst ↦ let done = advance_cycle (execute inst ctx) in (not done.terminated, done)
    ]

abbrev pub over : Option ℕ → ℕ → Bool
over none cycle = false
over (some max_cycles) cycle = leb max_cycles cycle

-- The loop of `Run` on fuel; `none` is a run that the fuel does not finish.
unfoldable pub run : ℕ → Tables → Option ℕ → Option ℕ → Context → Option Context
unfolding step request_terminate
run zero t stop_pc max_cycles ctx = none
run (suc fuel) t stop_pc max_cycles ctx =
    let next = step t stop_pc ctx in
    let rest = run fuel t stop_pc max_cycles next.1 in
    if ctx.terminated
    then some ctx
    else if over max_cycles ctx.cycle
    then some (request_terminate ctx ctx.exit_code "max_cycles")
    else if not next.0
    then some next.1
    else rest
