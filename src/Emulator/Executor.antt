-- ===== src/Emulator/Executor.antt =====
-- The reference executor of src/emulator/reference_executor.cpp: registers, names, fetch.
pub mod Execute
pub mod Steps
pub mod Frame
pub mod Totality
mod Tests
use Prim.Native.Nat.{bit_or, bit_and}
use Prim.Native.String.{String}
use text.Mathlib.Text.{◌==◌ as str_eq}
use linx_model.Base.{
  ℕ, zero, suc, ◌+◌, ◌-◌, ◌*◌, ◌%◌, ◌^◌, Bool, true, false, not, ◌&&◌, ◌||◌, Option, none, some,
  List, [], ◌∷◌, ◌==◌, ltb, leb, if◌then◌else◌, get_elem?,
}
use linx_model.Base.Int.{ℤ, pos, negsuc}
use linx_model.Isa.Enums.{MinstStage, MinstCodecStatus}
use linx_model.Isa.Desc.{Tables}
use linx_model.Isa.Minst.{Minst, get_field_signed, get_field_unsigned, create_fetch, mark_stage}
use linx_model.Isa.Codec.Decode.{decode_packed_word}
use linx_model.Emulator.State.{LinxState, initial_state}
use linx_model.Emulator.Context.{ExecutionContext, read16, read_bytes}

-- `GetUnsignedAny` and `GetSignedAny`.
unfoldable pub get_unsigned_any : Minst → List String → Option ℕ
unfolding get_field_unsigned
get_unsigned_any inst [] = none
get_unsigned_any inst (name ∷ names) = elim (get_field_unsigned inst name) [
  | none ↦ get_unsigned_any inst names
  | some v ↦ some v
]

unfoldable pub get_signed_any : Minst → List String → Option ℤ
unfolding get_field_signed
get_signed_any inst [] = none
get_signed_any inst (name ∷ names) = elim (get_field_signed inst name) [
  | none ↦ get_signed_any inst names
  | some v ↦ some v
]

unfoldable pub read_gpr : LinxState → ℕ → ℕ
read_gpr state idx =
    if idx == 0 || leb 24 idx
    then if leb 24 idx && ltb idx 28
      then state.tq (idx - 24)
      else if leb 28 idx && ltb idx 32
      then state.uq (idx - 28)
      else 0
    else state.gpr idx

-- An array with one entry changed.
abbrev pub update : (ℕ → ℕ) → ℕ → ℕ → ℕ → ℕ
update a i v = λ j. if j == i then v else a j

-- The four entries move up by one.
unfoldable pub push_queue : (ℕ → ℕ) → ℕ → ℕ → ℕ
push_queue queue value = λ j. if j == 0 then value else queue (j - 1)

unfoldable pub write_scalar_destination : LinxState → ℕ → ℕ → LinxState
unfolding push_queue
write_scalar_destination state idx value =
    if idx == 31
    then record state { tq = push_queue state.tq value }
    else if idx == 30
    then record state { uq = push_queue state.uq value }
    else if ltb 0 idx && ltb idx 24
    then record state { gpr = update state.gpr idx value }
    else state

abbrev pub is_one_of : String → List String → Bool
is_one_of name [] = false
is_one_of name (x ∷ xs) = str_eq name x || is_one_of name xs

unfoldable pub resolve_block_kind : Minst → LinxState → String
resolve_block_kind inst state =
    if str_eq inst.mnemonic "C.BSTART.VPAR"
    then "vpar"
    else if str_eq inst.mnemonic "C.BSTART.VSEQ"
    then "vseq"
    else if str_eq inst.mnemonic "BSTART.TEPL"
    then "tepl"
    else if is_one_of inst.mnemonic (
        "BSTART.TMATMUL" ∷ "BSTART.TMATMUL.ACC" ∷ "BSTART.TMATMUL.BIAS" ∷ "BSTART.TMATMULMX"
        ∷ "BSTART.TMATMULMX.ACC" ∷ "BSTART.TMATMULMX.BIAS" ∷ "BSTART.TGEMV" ∷ "BSTART.TGEMV.ACC"
        ∷ "BSTART.TGEMV.BIAS" ∷ "BSTART.TGEMVMX" ∷ "BSTART.TGEMVMX.ACC" ∷ "BSTART.TGEMVMX.BIAS"
        ∷ [])
    then "cube"
    else if is_one_of inst.mnemonic (
        "BSTART.TLOAD" ∷ "BSTART.TSTORE" ∷ "BSTART.TMOV" ∷ "BSTART.TPREFETCH" ∷ "BSTART.MGATHER"
        ∷ "BSTART.MSCATTER" ∷ "BSTART.MGATHER.MASK" ∷ "BSTART.MSCATTER.MASK" ∷ "BSTART.MGATHER.CAS"
        ∷ "BSTART.GMOV" ∷ [])
    then "tlsu"
    else if is_one_of inst.mnemonic ("SSRSET" ∷ "HL.SSRSET" ∷ [])
    then "sys"
    else state.block_kind

unfoldable pub resolve_lane_id : String → ℤ
resolve_lane_id block_kind = if is_one_of block_kind ("vpar" ∷ "vseq" ∷ []) then pos 0 else negsuc 0

unfoldable pub is_tile_header : Minst → Bool
unfolding resolve_block_kind initial_state
is_tile_header inst =
    is_one_of (resolve_block_kind inst initial_state) ("tlsu" ∷ "cube" ∷ "tepl" ∷ [])

unfoldable pub is_implemented : Minst → Bool
unfolding is_tile_header
is_implemented inst =
    is_one_of inst.mnemonic (
      "C.BSTART.STD" ∷ "C.BSTART.VPAR" ∷ "C.BSTART.VSEQ" ∷ "C.BSTART" ∷ "C.BSTOP" ∷ "C.MOVI"
      ∷ "C.MOVR" ∷ "LUI" ∷ "HL.LUI" ∷ "HL.LIU" ∷ "HL.LIS" ∷ "ADDI" ∷ "LWI" ∷ "SWI" ∷ "SETC.NE"
      ∷ "SETC.LTU" ∷ "SSRSET" ∷ "MCOPY" ∷ "MSET" ∷ [])
    || is_tile_header inst
    || str_eq inst.mnemonic "B.TEXT"

-- The length in bytes that the low digits of the first half-word say.
unfoldable pub instruction_length : ℕ → ℕ
instruction_length hw =
    if bit_and hw 1 == 0
    then if bit_and hw 15 == 14 then 6 else 2
    else if bit_and hw 15 == 15
    then 8
    else 4

-- The loop of `FetchDecode` is that of the word reads.
unfoldable pub fetch_decode : {R : Type 0} → Tables → ExecutionContext R → Option Minst
unfolding read16 instruction_length create_fetch mark_stage
fetch_decode t ctx = elim (read16 ctx ctx.state.pc) [
  | none ↦ none
  | some hw ↦
      let len = instruction_length hw in
      elim (read_bytes ctx.memory ctx.state.pc 0 0 len) [
        | none ↦ none
        | some packed ↦
            let fetched =
              create_fetch ((ctx.state.insn_count + 1) % 2 ^ 64) ctx.state.pc packed len in
            let inst = decode_packed_word t packed (len * 8) fetched in
            elim inst.decode_status [
              | MinstCodecStatus.ok ↦ some (mark_stage inst MinstStage.decode)
              | _ ↦ none
            ]
      ]
]
