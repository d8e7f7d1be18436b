-- ===== src/Emulator/Executor/Execute.antt =====
-- `ReferenceExecutor::Execute` of src/emulator/reference_executor.cpp: one operation per mnemonic.
use Prim.Native.String.{String}
use text.Mathlib.Text.{◌==◌ as str_eq}
use linx_model.Base.{
  ℕ, zero, suc, ◌+◌, ◌*◌, ◌%◌, ◌^◌, Bool, true, not, ◌&&◌, Option, none, some, List, [], ◌∷◌, ◌==◌,
  ltb, if◌then◌else◌, get_elem?,
}
use linx_model.Base.Int.{ℤ, pos, negsuc, to_u64, to_i32}
use linx_model.Isa.Names.{contains}
use linx_model.Isa.Minst.{Minst, MinstOperand}
use linx_model.Emulator.State.{LinxState}
use linx_model.Emulator.Context.{ExecutionContext, address_at, read8, read32, write8, write32}
use linx_model.Emulator.Record.{MinstRecord, copy_text}
use linx_model.Emulator.Executor.{
  get_unsigned_any, get_signed_any, read_gpr, write_scalar_destination, update,
}

abbrev pub Context : Type 0
Context = ExecutionContext MinstRecord

-- What a mnemonic's code changes: the context and the record to be committed.
pub record Effect : Type 0 where
  pub ctx : Context
  pub commit : MinstRecord

-- `value_or(0)`, and the value of an operand or 0 where there is none.
abbrev pub signed_or_zero : Option ℤ → ℤ
signed_or_zero none = pos 0
signed_or_zero (some v) = v

abbrev pub unsigned_or_zero : Option ℕ → ℕ
unsigned_or_zero none = 0
unsigned_or_zero (some v) = v

abbrev operand : List MinstOperand → ℕ → ℕ
operand os i = elim (get_elem? os i) [ none ↦ 0 | some o ↦ o.value ]

abbrev pub source : Minst → Context → ℕ → ℕ
source inst ctx i = read_gpr ctx.state (operand inst.srcs i)

abbrev with_state : Context → LinxState → Context
with_state ctx state = record ctx { state = state }

-- `state.pc = inst.next_pc`.
abbrev advance : Minst → LinxState → LinxState
advance inst state = record state { pc = inst.next_pc }

-- The value goes to the destination and into the record.
unfoldable pub write_result : Minst → ℕ → Effect → Effect
unfolding write_scalar_destination
write_result inst value e = record {
  ctx =
      with_state e.ctx
        (advance inst (write_scalar_destination e.ctx.state (operand inst.dsts 0) value));
  commit = record e.commit { dst0 = record e.commit.dst0 { operand_data = value } };
}

unfoldable pub start_block : Minst → ℕ → Effect → Effect
unfolding get_unsigned_any
start_block inst current_pc e = record e {
  ctx = with_state e.ctx (
      advance inst (record e.ctx.state {
        bpc = current_pc;
        brtype = unsigned_or_zero (get_unsigned_any inst ("BrType" ∷ [])) % 2 ^ 32;
        blocktype = 0;
        block_kind = "scalar";
        lane_id = negsuc 0;
      }));
}

unfoldable pub start_vector : String → Minst → ℕ → Effect → Effect
start_vector kind inst current_pc e = record {
  ctx =
      with_state e.ctx (
        advance inst (record e.ctx.state { bpc = current_pc; block_kind = kind; lane_id = pos 0 }));
  commit = record e.commit { block_kind = kind; lane_id = pos 0 };
}

unfoldable pub start_branch : Minst → ℕ → Effect → Effect
unfolding get_signed_any
start_branch inst current_pc e =
    let offset = signed_or_zero (get_signed_any inst ("simm12" ∷ [])) in
    record e {
      ctx = with_state e.ctx (
          advance inst (record e.ctx.state {
            tgt = (current_pc + to_u64 offset * 2) % 2 ^ 64;
            bpc = current_pc;
            blocktype = if contains inst.asm_template "DIRECT" then 1 else 2;
          }));
    }

unfoldable pub stop_block : Minst → Effect → Effect
stop_block inst e =
    let state = e.ctx.state in
    record e {
      ctx = with_state e.ctx (record state {
        pc =
            if state.blocktype == 1
            then state.tgt
            else if state.blocktype == 2 && not (state.carg == 0)
            then state.tgt
            else inst.next_pc;
        blocktype = 0;
        carg = 0;
      });
    }

unfoldable pub load_word : Minst → Effect → Effect
unfolding write_result read_gpr get_signed_any read32
load_word inst e =
    let off = to_u64 (signed_or_zero (get_signed_any inst ("simm" ∷ "simm12" ∷ []))) * 4 % 2 ^ 64 in
    let addr = (source inst e.ctx 0 + off) % 2 ^ 64 in
    let value = to_u64 (to_i32 (unsigned_or_zero (read32 e.ctx addr))) in
    let written = write_result inst value e in
    record written {
      commit = record written.commit {
        memory = record written.commit.memory {
          valid = true;
          is_load = true;
          addr = addr;
          size = 4;
          rdata = value;
        };
      };
    }

unfoldable pub store_word : Minst → Effect → Effect
unfolding read_gpr get_signed_any write32
store_word inst e =
    let value = source inst e.ctx 0 in
    let off = to_u64 (signed_or_zero (get_signed_any inst ("simm" ∷ "simm12" ∷ []))) * 4 % 2 ^ 64 in
    let addr = (source inst e.ctx 1 + off) % 2 ^ 64 in
    let stored = write32 e.ctx addr (value % 2 ^ 32) in
    record {
      ctx = with_state stored (advance inst stored.state);
      commit = record e.commit {
        memory = record e.commit.memory {
          valid = true;
          is_store = true;
          addr = addr;
          size = 4;
          wdata = value % 2 ^ 32;
        };
      };
    }

unfoldable pub set_condition : Bool → Minst → Effect → Effect
set_condition holds inst e = record e {
  ctx = with_state e.ctx (advance inst (record e.ctx.state { carg = if holds then 1 else 0 }));
}

unfoldable pub set_register : Minst → Effect → Effect
unfolding read_gpr get_unsigned_any
set_register inst e =
    let state = e.ctx.state in
    let ssr_id = unsigned_or_zero (get_unsigned_any inst ("SSR_ID" ∷ [])) in
    record {
      ctx = with_state e.ctx (
          advance inst (
            if ltb ssr_id 4096
            then record state {
              ssr_acr = λ a.
                  if a == state.acr
                  then update (state.ssr_acr a) ssr_id (source inst e.ctx 0)
                  else state.ssr_acr a;
            }
            else state));
      commit = record e.commit { block_kind = "sys" };
    }

-- The loops of `MCOPY` and `MSET` for the `n` bytes from `idx` on.
unfoldable pub copy_loop : Context → ℕ → ℕ → ℕ → ℕ → Context
unfolding read8 write8
copy_loop ctx dst_addr src_addr idx zero = ctx
copy_loop ctx dst_addr src_addr idx (suc n) =
    copy_loop
      (write8 ctx (address_at dst_addr idx)
        (unsigned_or_zero (read8 ctx (address_at src_addr idx))))
      dst_addr src_addr (suc idx) n

unfoldable pub fill_loop : Context → ℕ → ℕ → ℕ → ℕ → Context
unfolding write8
fill_loop ctx dst_addr value idx zero = ctx
fill_loop ctx dst_addr value idx (suc n) =
    fill_loop (write8 ctx (address_at dst_addr idx) value) dst_addr value (suc idx) n

unfoldable pub copy_memory : Minst → Effect → Effect
unfolding copy_loop read_gpr
copy_memory inst e =
    let copied =
      copy_loop e.ctx (source inst e.ctx 0) (source inst e.ctx 1) 0 (source inst e.ctx 2) in
    record e { ctx = with_state copied (advance inst copied.state) }

unfoldable pub fill_memory : Minst → Effect → Effect
unfolding fill_loop read_gpr
fill_memory inst e =
    let filled =
      fill_loop e.ctx (source inst e.ctx 0) (source inst e.ctx 1 % 2 ^ 8) 0 (source inst e.ctx 2) in
    record e { ctx = with_state filled (advance inst filled.state) }

unfoldable pub tile_header : String → Minst → Effect → Effect
unfolding copy_text
tile_header current_block_kind inst e =
    let kind = if str_eq inst.mnemonic "B.TEXT" then "tlsu" else current_block_kind in
    record {
      ctx = with_state e.ctx (advance inst (record e.ctx.state { block_kind = kind }));
      commit = record e.commit { block_kind = copy_text kind };
    }
