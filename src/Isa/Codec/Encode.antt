-- ===== src/Isa/Codec/Encode.antt =====
-- `EncodeMinst` in src/isa/codec.cpp.
use Prim.Native.Nat.{bit_and, bit_or}
use linx_model.Base.{ℕ, ◌/◌, ◌%◌, ◌^◌, Bool, true, false, none, some, List, [], ◌∷◌, if◌then◌else◌}
use linx_model.Isa.Enums.{MinstCodecStatus}
use linx_model.Isa.Desc.{
  MinstFieldPieceDesc, MinstFieldDesc, MinstConstraintDesc, MinstFormDesc, Tables, fields_for,
  constraints_for, pieces_for,
}
use linx_model.Isa.Minst.{Minst, find_decoded_field}
use linx_model.Isa.Codec.Word.{
  shl64, not64, bit_mask, evaluate_constraint, fits_field, encode_field_bits,
}

pub record MinstEncodedWord : Type 0 where
  pub bits : ℕ
  pub length_bits : ℕ
  pub valid : Bool
  pub status : MinstCodecStatus

abbrev pub refused : MinstCodecStatus → MinstEncodedWord
refused status = record { bits = 0; length_bits = 0; valid = false; status = status }

-- One piece of a field written into the word.
unfoldable pub place_piece : ℕ → MinstFieldPieceDesc → ℕ → ℕ
unfolding bit_mask
place_piece raw_value p bits =
    bit_or (bit_and bits (not64 (shl64 (bit_mask p.width) p.insn_lsb)))
      (shl64 (bit_and (raw_value / 2 ^ p.value_lsb) (bit_mask p.width)) p.insn_lsb)

unfoldable pub place : ℕ → List MinstFieldPieceDesc → ℕ → ℕ
unfolding place_piece
place raw_value [] bits = bits
place raw_value (p ∷ ps) bits = place raw_value ps (place_piece raw_value p bits)

-- A step of `EncodeMinst` either goes on or returns a status.
pub data Encoding (A : Type 0) : Type 0 where
  go : A → Encoding A
  stop : MinstCodecStatus → Encoding A

unfoldable pub encode_fields : Tables → Minst → List MinstFieldDesc → ℕ → Encoding ℕ
unfolding place fits_field encode_field_bits find_decoded_field
encode_fields t inst [] bits = go bits
encode_fields t inst (d ∷ ds) bits = elim (find_decoded_field inst d.name) [
  | none ↦ stop MinstCodecStatus.missing_field
  | some f ↦
      let rest =
        encode_fields t inst ds
          (place (encode_field_bits d f.logical_value) (pieces_for t d) bits) in
      if fits_field d f.logical_value then rest else stop MinstCodecStatus.value_out_of_range
]

unfoldable pub check_constraints : Minst → List MinstConstraintDesc → ℕ → Encoding ℕ
unfolding evaluate_constraint find_decoded_field
check_constraints inst [] bits = go bits
check_constraints inst (c ∷ cs) bits = elim (find_decoded_field inst c.field_name) [
  | none ↦ stop MinstCodecStatus.missing_field
  | some f ↦
      let rest = check_constraints inst cs bits in
      if evaluate_constraint c.op f.logical_value c.value
      then rest
      else stop MinstCodecStatus.constraint_violation
]

abbrev pub finish_encoding : MinstFormDesc → Encoding ℕ → MinstEncodedWord
finish_encoding form (stop status) = refused status
finish_encoding form (go bits) = record {
  bits = bit_and bits (bit_mask (form.length_bits % 2 ^ 8));
  length_bits = form.length_bits % 2 ^ 8;
  valid = true;
  status = MinstCodecStatus.ok;
}

abbrev pub encode_form : Tables → Minst → MinstFormDesc → Encoding ℕ
encode_form t inst form = elim (encode_fields t inst (fields_for t form) form.match) [
  | stop status ↦ stop status
  | go bits ↦ check_constraints inst (constraints_for t form) bits
]

unfoldable pub encode_minst : Tables → Minst → MinstEncodedWord
unfolding encode_fields check_constraints bit_mask fields_for pieces_for constraints_for
encode_minst t inst = elim inst.form [
  | none ↦ refused MinstCodecStatus.invalid_form
  | some form ↦
      if inst.valid_form
      then finish_encoding form (encode_form t inst form)
      else refused MinstCodecStatus.invalid_form
]
