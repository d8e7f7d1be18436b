-- ===== src/Isa/Codec/Tests.antt =====
-- A table of two 16-bit forms, and the codec on it.
use linx_model.Base.{ℕ, ◌≡◌, refl, true, false, some, [], ◌∷◌, if◌then◌else◌, arith}
use linx_model.Base.Bits.{bit}
use linx_model.Base.Int.{pos, negsuc}
use linx_model.Isa.Enums.{MinstCodecStatus, MinstConstraintOp}
use linx_model.Isa.Desc.{MinstFieldDesc, MinstFormDesc, Tables, fields_for, pieces_for}
use linx_model.Isa.Minst.{fresh, set_decoded_field, find_decoded_field, get_field_signed}
use linx_model.Isa.Codec.Word.{bit_mask}
use linx_model.Isa.Codec.Decode.{scan, scan_start, decode_packed_word}
use linx_model.Isa.Codec.Search.{any_fixed_match, best_forms, scan-best_forms}
use linx_model.Isa.Codec.Outcome.{is_length, status_of, decode-status}
use linx_model.Isa.Minst.Fields.{find-set_decoded_field}
use Prim.Native.Nat.{bit_and}
use linx_model.Isa.Codec.Encode.{encode_minst}
use linx_model.Isa.Codec.Forms.{AreForms}
use linx_model.Isa.Codec.RoundTrip.{encode-decode}

-- Two fields: an unsigned register, and a signed immediate in two pieces.
abbrev register : MinstFieldDesc
register = record {
  name = "RegDst";
  is_signed = false;
  bit_width = 5;
  piece_start = 0;
  piece_count = 1;
}

abbrev immediate : MinstFieldDesc
immediate = record {
  name = "simm5";
  is_signed = true;
  bit_width = 5;
  piece_start = 1;
  piece_count = 2;
}

abbrev move_form : MinstFormDesc
move_form = record {
  uid = "u1";
  mnemonic = "C.MOVI";
  asm_template = "c.movi simm, ->Rd";
  encoding_kind = "C16";
  group = "ALU";
  uop_group = "ALU";
  uop_big_kind = "ALU";
  length_bits = 16;
  fixed_bits = 6;
  mask = 0x3f;
  match = 0x16;
  field_start = 0;
  field_count = 2;
  constraint_start = 0;
  constraint_count = 1;
}

abbrev stop_form : MinstFormDesc
stop_form = record {
  uid = "u2";
  mnemonic = "C.BSTOP";
  asm_template = "c.bstop";
  encoding_kind = "C16";
  group = "BBD";
  uop_group = "BRU";
  uop_big_kind = "BRU";
  length_bits = 16;
  fixed_bits = 16;
  mask = 0xffff;
  match = 0;
  field_start = 2;
  field_count = 0;
  constraint_start = 1;
  constraint_count = 0;
}

abbrev small_tables : Tables
small_tables = record {
  field_pieces =
      record { insn_lsb = 6; width = 5; value_lsb = 0 }
      ∷ record { insn_lsb = 11; width = 2; value_lsb = 3 }
      ∷ record { insn_lsb = 13; width = 3; value_lsb = 0 }
      ∷ [];
  fields = register ∷ immediate ∷ [];
  constraints = record { field_name = "RegDst"; op = MinstConstraintOp.ne; value = pos 31 } ∷ [];
  forms = stop_form ∷ move_form ∷ [];
}

-- 0x30d6 is `simm5 = -15, RegDst = 3`.
decode_move :
    get_field_signed (decode_packed_word small_tables 0x30d6 16 fresh) "simm5" ≡ some (negsuc 14)
unfolding get_field_signed decode_packed_word
decode_move = refl

small_tables-AreForms : AreForms small_tables small_tables.forms
unfolding fields_for pieces_for bit
small_tables-AreForms = (
  (tt, refl),
  (((omega arith, omega arith, (refl, tt), (omega arith, omega arith, tt, tt)), refl), tt),
)

encode-decode_example :
    encode_minst small_tables (decode_packed_word small_tables 0x30d6 16 fresh)
    ≡ record { bits = 0x30d6; length_bits = 16; valid = true; status = MinstCodecStatus.ok }
unfolding bit_mask decode_packed_word
encode-decode_example = encode-decode small_tables 0x30d6 16 fresh small_tables-AreForms refl

abbrev move_word : ℕ
move_word = 0x30d6

decode-status_example : (decode_packed_word small_tables move_word 16 fresh).decode_status ≡ (
    if is_length 16
    then status_of
        (any_fixed_match small_tables (bit_and move_word (bit_mask 16)) 16 small_tables.forms)
        (best_forms small_tables (bit_and move_word (bit_mask 16)) 16)
    else MinstCodecStatus.invalid_length)
decode-status_example = decode-status small_tables move_word 16 fresh

scan-best_forms_example :
    let s = scan small_tables move_word 16 small_tables.forms scan_start in
    (s.valid_matches ≡ best_forms small_tables move_word 16)
    × (s.saw_fixed_match ≡ any_fixed_match small_tables move_word 16 small_tables.forms)
scan-best_forms_example = scan-best_forms small_tables move_word 16

find-set_decoded_field_example :
    find_decoded_field (set_decoded_field fresh "RegDst" (pos 3) false 5) "RegDst"
    ≡ some (record { name = "RegDst"; signed_hint = false; bit_width = 5; logical_value = pos 3 })
find-set_decoded_field_example = find-set_decoded_field fresh "RegDst" (pos 3) false 5 "RegDst"
