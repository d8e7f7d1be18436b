-- ===== src/Emulator/Executor/Frame.antt =====
-- What no operation of `Execute` (src/emulator/reference_executor.cpp) touches: the cycle, the
-- committed records and the program.
use Prim.Native.String.{String}
use text.Mathlib.Text.{◌==◌ as str_eq}
use linx_model.Base.{
  ℕ, zero, suc, ◌%◌, ◌+◌, ◌*◌, ◌^◌, Bool, true, false, not, ◌||◌, ◌==◌, ltb, [], ◌∷◌, ◌≡◌, refl,
  if◌then◌else◌, arith,
}
use linx_model.Base.Int.{to_u64}
use linx_model.Isa.Minst.{Minst}
use linx_model.Emulator.Context.{
  address_at, write8, write32, read8, handle_test_finisher_write, request_terminate,
}
use linx_model.Emulator.Executor.{get_signed_any, get_unsigned_any, is_tile_header}
use linx_model.Emulator.Executor.Execute.{
  Context, Effect, write_result, start_block, start_vector, start_branch, stop_block, load_word,
  store_word, set_condition, set_register, copy_loop, fill_loop, copy_memory, fill_memory,
  tile_header, unsigned_or_zero, signed_or_zero, source,
}
use linx_model.Emulator.Executor.Steps.{dispatch}

-- The operation's context against the one before.
pub record SameFrame (c d : Context) : Type 0 where
  pub same_cycle : c.cycle ≡ d.cycle
  pub same_committed : c.committed ≡ d.committed
  pub same_program : (c.program ≡ d.program) × (c.has_program ≡ d.has_program)

write32-SameFrame : (ctx : Context) (addr value : ℕ) → SameFrame (write32 ctx addr value) ctx
unfolding write32 handle_test_finisher_write request_terminate
write32-SameFrame ctx addr value = ground arith

copy_loop-SameFrame :
    (dst_addr src_addr n idx : ℕ) (ctx : Context)
    → SameFrame (copy_loop ctx dst_addr src_addr idx n) ctx
unfolding copy_loop write8
copy_loop-SameFrame dst_addr src_addr zero idx ctx = ground arith
copy_loop-SameFrame dst_addr src_addr (suc n) idx ctx =
    let next =
      write8 ctx (address_at dst_addr idx)
        (unsigned_or_zero (read8 ctx (address_at src_addr idx))) in
    let rest = copy_loop-SameFrame dst_addr src_addr n (suc idx) next in
    record {
      same_cycle = rest.same_cycle;
      same_committed = rest.same_committed;
      same_program = rest.same_program;
    }

fill_loop-SameFrame :
    (dst_addr value n idx : ℕ) (ctx : Context) → SameFrame (fill_loop ctx dst_addr value idx n) ctx
unfolding fill_loop write8
fill_loop-SameFrame dst_addr value zero idx ctx = ground arith
fill_loop-SameFrame dst_addr value (suc n) idx ctx =
    let rest =
      fill_loop-SameFrame dst_addr value n (suc idx) (write8 ctx (address_at dst_addr idx) value) in
    record {
      same_cycle = rest.same_cycle;
      same_committed = rest.same_committed;
      same_program = rest.same_program;
    }

-- The operation on an effect.
abbrev KeepsFrame : (Effect → Effect) → Type 0
KeepsFrame op = (e : Effect) → SameFrame (op e).ctx e.ctx

write_result-frame : (inst : Minst) (v : ℕ) → KeepsFrame (write_result inst v)
unfolding write_result
write_result-frame inst v e = record {
  same_cycle = refl;
  same_committed = refl;
  same_program = (refl, refl);
}

load_word-frame : (inst : Minst) → KeepsFrame (load_word inst)
unfolding load_word write_result
load_word-frame inst e = record {
  same_cycle = refl;
  same_committed = refl;
  same_program = (refl, refl);
}

start_block-frame : (inst : Minst) (current_pc : ℕ) → KeepsFrame (start_block inst current_pc)
unfolding start_block
start_block-frame inst current_pc e = record {
  same_cycle = refl;
  same_committed = refl;
  same_program = (refl, refl);
}

start_vector-frame :
    (kind : String) (inst : Minst) (current_pc : ℕ) → KeepsFrame (start_vector kind inst current_pc)
unfolding start_vector
start_vector-frame kind inst current_pc e = record {
  same_cycle = refl;
  same_committed = refl;
  same_program = (refl, refl);
}

start_branch-frame : (inst : Minst) (current_pc : ℕ) → KeepsFrame (start_branch inst current_pc)
unfolding start_branch
start_branch-frame inst current_pc e = record {
  same_cycle = refl;
  same_committed = refl;
  same_program = (refl, refl);
}

stop_block-frame : (inst : Minst) → KeepsFrame (stop_block inst)
unfolding stop_block
stop_block-frame inst e = record {
  same_cycle = refl;
  same_committed = refl;
  same_program = (refl, refl);
}

set_condition-frame : (b : Bool) (inst : Minst) → KeepsFrame (set_condition b inst)
unfolding set_condition
set_condition-frame b inst e = record {
  same_cycle = refl;
  same_committed = refl;
  same_program = (refl, refl);
}

set_register-frame : (inst : Minst) → KeepsFrame (set_register inst)
unfolding set_register
set_register-frame inst e = record {
  same_cycle = refl;
  same_committed = refl;
  same_program = (refl, refl);
}

tile_header-frame : (kind : String) (inst : Minst) → KeepsFrame (tile_header kind inst)
unfolding tile_header
tile_header-frame kind inst e = record {
  same_cycle = refl;
  same_committed = refl;
  same_program = (refl, refl);
}

store_word-frame : (inst : Minst) → KeepsFrame (store_word inst)
unfolding store_word
store_word-frame inst e =
    let kept =
      write32-SameFrame e.ctx
        ((source inst e.ctx 1
            + to_u64 (signed_or_zero (get_signed_any inst ("simm" ∷ "simm12" ∷ []))) * 4 % 2 ^ 64)
          % 2 ^ 64)
        (source inst e.ctx 0 % 2 ^ 32) in
    record {
      same_cycle = kept.same_cycle;
      same_committed = kept.same_committed;
      same_program = kept.same_program;
    }

copy_memory-frame : (inst : Minst) → KeepsFrame (copy_memory inst)
unfolding copy_memory
copy_memory-frame inst e =
    let kept =
      copy_loop-SameFrame (source inst e.ctx 0) (source inst e.ctx 1) (source inst e.ctx 2) 0
        e.ctx in
    record {
      same_cycle = kept.same_cycle;
      same_committed = kept.same_committed;
      same_program = kept.same_program;
    }

fill_memory-frame : (inst : Minst) → KeepsFrame (fill_memory inst)
unfolding fill_memory
fill_memory-frame inst e =
    let kept =
      fill_loop-SameFrame (source inst e.ctx 0) (source inst e.ctx 1 % 2 ^ 8) (source inst e.ctx 2)
        0 e.ctx in
    record {
      same_cycle = kept.same_cycle;
      same_committed = kept.same_committed;
      same_program = kept.same_program;
    }

record Kept (x e : Effect) : Type 0 where
  kept : SameFrame x.ctx e.ctx

module _ (inst : Minst) (kind : String) (current_pc : ℕ) (e : Effect) where
  if-Kept :
      (b : Bool) (x : Effect) {y : Effect}
      → SameFrame x.ctx e.ctx
      → Kept y e
      → Kept (if b then x else y) e
  if-Kept true x p q = record { kept = p }
  if-Kept false x p q = q

  -- The mnemonic `name` has the operation `x`.
  if_is :
      (name : String) (x : Effect) {y : Effect}
      → SameFrame x.ctx e.ctx
      → Kept y e
      → Kept (if str_eq inst.mnemonic name then x else y) e
  if_is name x p q = if-Kept (str_eq inst.mnemonic name) x p q

  no_operation : Kept e e
  no_operation = record {
    kept = record { same_cycle = refl; same_committed = refl; same_program = (refl, refl) };
  }

  dispatch-Kept : Kept (dispatch inst kind current_pc e) e
  unfolding dispatch
  dispatch-Kept =
      if_is "C.BSTART.STD" (start_block inst current_pc e) (start_block-frame inst current_pc e) (
        if_is "C.BSTART.VPAR" (start_vector "vpar" inst current_pc e)
          (start_vector-frame "vpar" inst current_pc e)
          (if_is "C.BSTART.VSEQ" (start_vector "vseq" inst current_pc e)
            (start_vector-frame "vseq" inst current_pc e)
            (if_is "C.BSTART" (start_branch inst current_pc e)
              (start_branch-frame inst current_pc e)
              (if_is "C.BSTOP" (stop_block inst e) (stop_block-frame inst e) (
                if_is "C.MOVI"
                  (write_result inst
                    ((to_u64 (signed_or_zero (get_signed_any inst ("simm5" ∷ []))))) e)
                  (write_result-frame inst
                    ((to_u64 (signed_or_zero (get_signed_any inst ("simm5" ∷ []))))) e)
                  (if_is "C.MOVR" (write_result inst (source inst e.ctx 0) e)
                    (write_result-frame inst (source inst e.ctx 0) e)
                    (if_is "LUI"
                      (write_result inst
                        ((to_u64 (
                            signed_or_zero
                              (get_signed_any inst ("simm20" ∷ "imm20" ∷ "simm" ∷ "imm" ∷ []))))
                          * 2 ^ 12
                          % 2 ^ 64)
                        e)
                      (write_result-frame inst
                        ((to_u64 (
                            signed_or_zero
                              (get_signed_any inst ("simm20" ∷ "imm20" ∷ "simm" ∷ "imm" ∷ []))))
                          * 2 ^ 12
                          % 2 ^ 64)
                        e)
                      (if_is "HL.LUI"
                        (write_result inst
                          ((unsigned_or_zero (get_unsigned_any inst ("imm32" ∷ "imm" ∷ [])))
                            % 2 ^ 32
                            * 2 ^ 32)
                          e)
                        (write_result-frame inst
                          ((unsigned_or_zero (get_unsigned_any inst ("imm32" ∷ "imm" ∷ [])))
                            % 2 ^ 32
                            * 2 ^ 32)
                          e)
                        (if_is "HL.LIU"
                          (write_result inst
                            ((unsigned_or_zero (get_unsigned_any inst ("uimm32" ∷ "imm" ∷ [])))
                              % 2 ^ 32)
                            e)
                          (write_result-frame inst
                            ((unsigned_or_zero (get_unsigned_any inst ("uimm32" ∷ "imm" ∷ [])))
                              % 2 ^ 32)
                            e)
                          (if_is "HL.LIS"
                            (write_result inst
                              ((to_u64
                                (signed_or_zero (get_signed_any inst ("simm32" ∷ "imm" ∷ [])))))
                              e)
                            (write_result-frame inst
                              ((to_u64
                                (signed_or_zero (get_signed_any inst ("simm32" ∷ "imm" ∷ [])))))
                              e)
                            (if_is "ADDI"
                              (write_result inst
                                ((source inst e.ctx 0
                                    + (to_u64 (
                                        signed_or_zero (
                                          get_signed_any inst (
                                            "uimm" ∷ "uimm12" ∷ "simm" ∷ "imms" ∷ "simm12" ∷ [])))))
                                  % 2 ^ 64)
                                e)
                              (write_result-frame inst
                                ((source inst e.ctx 0
                                    + (to_u64 (
                                        signed_or_zero (
                                          get_signed_any inst (
                                            "uimm" ∷ "uimm12" ∷ "simm" ∷ "imms" ∷ "simm12" ∷ [])))))
                                  % 2 ^ 64)
                                e)
                              (if_is "LWI" (load_word inst e) (load_word-frame inst e) (
                                if_is "SWI" (store_word inst e) (store_word-frame inst e) (
                                  if_is "SETC.NE"
                                    (set_condition
                                      (not (source inst e.ctx 0 == source inst e.ctx 1)) inst e)
                                    (set_condition-frame
                                      (not (source inst e.ctx 0 == source inst e.ctx 1)) inst e)
                                    (if_is "SETC.LTU"
                                      (set_condition
                                        (ltb (source inst e.ctx 0) (source inst e.ctx 1)) inst e)
                                      (set_condition-frame
                                        (ltb (source inst e.ctx 0) (source inst e.ctx 1)) inst e)
                                      (if_is "SSRSET" (set_register inst e)
                                        (set_register-frame inst e)
                                        (if_is "MCOPY" (copy_memory inst e)
                                          (copy_memory-frame inst e)
                                          (if_is "MSET" (fill_memory inst e)
                                            (fill_memory-frame inst e)
                                            (if-Kept
                                              (is_tile_header inst || str_eq inst.mnemonic "B.TEXT")
                                              (tile_header kind inst e)
                                              (tile_header-frame kind inst e)
                                              no_operation)))))))))))))))))))

-- No operation changes the cycle, the committed records or the program.
pub dispatch-SameFrame :
    (inst : Minst) (kind : String) (current_pc : ℕ) (e : Effect)
    → SameFrame (dispatch inst kind current_pc e).ctx e.ctx
dispatch-SameFrame inst kind current_pc e = (dispatch-Kept inst kind current_pc e).kept
