-- ===== src/Isa/Disasm.antt =====
-- The disassembler of src/isa/disasm.cpp, whose texts of a line, `bytes_hex`
-- and `text`, are in Isa/Disasm/Text.antt.
pub mod Best
pub mod Tiles
pub mod Text
pub mod Print
mod Tests
use Prim.Native.Nat.{bit_or}
use Prim.Native.String.{String}
use text.Mathlib.Text.{◌==◌ as str_eq}
use linx_model.Base.{
  ℕ, zero, suc, ◌+◌, ◌*◌, ◌/◌, ◌%◌, ◌^◌, Bool, true, false, ◌&&◌, ◌||◌, Option, none, some, List,
  [], ◌∷◌, ◌++◌, ◌==◌, ltb, if◌then◌else◌, length, drop, max,
}
use linx_model.Isa.Enums.{MinstCodecStatus}
use linx_model.Isa.Desc.{MinstFormDesc, Tables}
use linx_model.Isa.Minst.{Minst, fresh}
use linx_model.Isa.Codec.Decode.{decode_packed_word}
use linx_model.Emulator.Context.{ProgramSection, ProgramImage}

pub record DecodeCandidate : Type 0 where
  pub inst : Minst
  pub length_bits : ℕ
  pub bits : ℕ

pub record MinstDisassemblyLine : Type 0 where
  pub section_name : String
  pub pc : ℕ
  pub bits : ℕ
  pub length_bits : ℕ
  pub size_bytes : ℕ
  pub status : MinstCodecStatus
  pub form_id : String

-- The loop from the `idx`-th byte on, with `n` bytes left.
unfoldable pub pack_little_endian : List ℕ → ℕ → ℕ → ℕ → ℕ
pack_little_endian bytes value idx zero = value
pack_little_endian [] value idx (suc n) = value
pack_little_endian (b ∷ bytes) value idx (suc n) =
    pack_little_endian bytes (bit_or value (b * 2 ^ (idx * 8) % 2 ^ 64)) (suc idx) n

abbrev pub is_ok : MinstCodecStatus → Bool
is_ok MinstCodecStatus.ok = true
is_ok _ = false

abbrev pub fixed_bits_of : Option MinstFormDesc → ℕ
fixed_bits_of none = 0
fixed_bits_of (some form) = form.fixed_bits

module _ (t : Tables) where
  -- The candidate of one length, if there are bytes for it and they decode.
  unfoldable pub candidate_of : List ℕ → ℕ → Option DecodeCandidate
  unfolding pack_little_endian
  candidate_of bytes length_bits =
      let size_bytes = length_bits / 8 in
      let bits = pack_little_endian bytes 0 0 size_bytes in
      let inst = decode_packed_word t bits length_bits fresh in
      if ltb (length bytes) size_bytes
      then none
      else if is_ok inst.decode_status
      then some (record { inst = inst; length_bits = length_bits; bits = bits })
      else none

  -- Which of the best one and a new candidate is kept; `best_fixed_bits` is the best one's.
  unfoldable pub keep_best :
      Option DecodeCandidate → Option DecodeCandidate → Option DecodeCandidate
  keep_best best none = best
  keep_best none (some candidate) = some candidate
  keep_best (some best) (some candidate) =
      let best_fixed_bits = fixed_bits_of best.inst.form in
      let fixed_bits = fixed_bits_of candidate.inst.form in
      if ltb best_fixed_bits fixed_bits
        || (fixed_bits == best_fixed_bits && ltb candidate.length_bits best.length_bits)
      then some candidate
      else some best

  -- The loop over `kCandidateLengths`.
  unfoldable pub decode_best : List ℕ → Option DecodeCandidate
  unfolding candidate_of keep_best
  decode_best bytes =
      let best16 = keep_best none (candidate_of bytes 16) in
      let best32 = keep_best best16 (candidate_of bytes 32) in
      let best48 = keep_best best32 (candidate_of bytes 48) in
      keep_best best48 (candidate_of bytes 64)

  abbrev pub decoded_line : DecodeCandidate → ℕ → String → MinstDisassemblyLine
  decoded_line decoded pc section_name = record {
    section_name = section_name;
    pc = pc;
    bits = decoded.bits;
    length_bits = decoded.length_bits % 2 ^ 8;
    size_bytes = decoded.length_bits / 8;
    status = decoded.inst.decode_status;
    form_id = if str_eq decoded.inst.form_id "" then "-" else decoded.inst.form_id;
  }

  -- The line of bytes that do not decode.
  abbrev pub single_byte_line : ℕ → ℕ → String → MinstDisassemblyLine
  single_byte_line b pc section_name = record {
    section_name = section_name;
    pc = pc;
    bits = b;
    length_bits = 8;
    size_bytes = 1;
    status = MinstCodecStatus.no_match;
    form_id = "-";
  }

  abbrev pub byte_line : List ℕ → ℕ → String → Option MinstDisassemblyLine
  byte_line [] pc section_name = none
  byte_line (b ∷ bytes) pc section_name = some (single_byte_line b pc section_name)

  unfoldable pub decode_disassembly_line : List ℕ → ℕ → String → Option MinstDisassemblyLine
  unfolding decode_best
  decode_disassembly_line bytes pc section_name = elim (decode_best bytes) [
    | none ↦ byte_line bytes pc section_name
    | some decoded ↦ some (decoded_line decoded pc section_name)
  ]

  -- The loop of `DisassembleSection` from an offset on, on fuel.
  unfoldable pub disassemble_from : ProgramSection → ℕ → ℕ → List MinstDisassemblyLine
  unfolding decode_disassembly_line
  disassemble_from s zero offset = []
  disassemble_from s (suc fuel) offset = elim (ltb offset (length s.bytes)) [
    | false ↦ []
    | true ↦
        elim (decode_disassembly_line (drop offset s.bytes) ((s.address + offset) % 2 ^ 64)
          s.name) [
            | none ↦ []
            | some line ↦ line ∷ disassemble_from s fuel (offset + max line.size_bytes 1)
          ]
  ]

  -- Every line takes a byte at least, so the section's length is fuel enough.
  unfoldable pub disassemble_section : ProgramSection → List MinstDisassemblyLine
  unfolding disassemble_from
  disassemble_section s = if s.executable then disassemble_from s (length s.bytes) 0 else []

  abbrev disassemble_sections : List ProgramSection → List MinstDisassemblyLine
  disassemble_sections [] = []
  disassemble_sections (s ∷ ss) =
      if s.executable
      then disassemble_section s ++ disassemble_sections ss
      else disassemble_sections ss

  unfoldable pub disassemble_program : ProgramImage → List MinstDisassemblyLine
  unfolding disassemble_section
  disassemble_program image = disassemble_sections image.sections
