-- ===== src/Isa/Codec/Decode.antt =====
-- `DecodePackedWord`, `DecodeMinst` and the search for the best form in src/isa/codec.cpp.
use Prim.Native.Nat.{bit_and, bit_or}
use Prim.Native.String.{String}
use text.Mathlib.Text.{◌==◌ as str_eq}
use linx_model.Base.{
  ℕ, ◌%◌, ◌^◌, Bool, true, false, not, ◌&&◌, ◌||◌, Option, none, some, List, [], ◌∷◌, ◌++◌, ◌==◌,
  ltb, if◌then◌else◌,
}
use linx_model.Base.Int.{ℤ, pos, negsuc, ltb_ℤ}
use linx_model.Isa.Enums.{MinstCodecStatus, MinstStage, MinstLifecycle}
use linx_model.Isa.Desc.{
  MinstFieldDesc, MinstConstraintDesc, MinstFormDesc, Tables, fields_for, constraints_for,
  pieces_for,
}
use linx_model.Isa.Minst.{Minst, clear_decoded_state, set_raw_encoding, set_form, set_decoded_field}
use linx_model.Isa.Minst.Views.{rebuild_typed_views}
use linx_model.Isa.Codec.Word.{shl64, bit_mask, eqb_ℤ, evaluate_constraint, extract_field_value}

-- The test of one form by `DecodePackedWord`.
unfoldable pub find_desc : String → List MinstFieldDesc → Option MinstFieldDesc
find_desc name [] = none
find_desc name (f ∷ fs) = if str_eq f.name name then some f else find_desc name fs

unfoldable pub constraint_ok : Tables → MinstFormDesc → ℕ → MinstConstraintDesc → Bool
unfolding find_desc extract_field_value evaluate_constraint fields_for
constraint_ok t form packed_bits c = elim (find_desc c.field_name (fields_for t form)) [
  | none ↦ false
  | some f ↦ elim (extract_field_value t f packed_bits) [
    | none ↦ false
    | some v ↦ evaluate_constraint c.op v c.value
  ]
]

unfoldable pub constraints_ok : Tables → MinstFormDesc → ℕ → List MinstConstraintDesc → Bool
unfolding constraint_ok
constraints_ok t form packed_bits [] = true
constraints_ok t form packed_bits (c ∷ cs) =
    constraint_ok t form packed_bits c && constraints_ok t form packed_bits cs

-- The variables of the search: `best_form` is left out, since the first valid match replaces it.
pub record Scan : Type 0 where
  pub valid_matches : List MinstFormDesc
  pub best_fixed_bits : ℤ
  pub saw_fixed_match : Bool

abbrev pub scan_start : Scan
scan_start = record { valid_matches = []; best_fixed_bits = negsuc 0; saw_fixed_match = false }

unfoldable pub scan_form : Tables → ℕ → ℕ → MinstFormDesc → Scan → Scan
unfolding constraints_ok constraints_for
scan_form t packed_bits length_bits form s =
    if not (form.length_bits == length_bits)
    then s
    else if not (bit_and packed_bits form.mask == form.match)
    then s
    else if not (constraints_ok t form packed_bits (constraints_for t form))
    then record s { saw_fixed_match = true }
    else if ltb_ℤ s.best_fixed_bits (pos form.fixed_bits)
    then record {
      valid_matches = form ∷ [];
      best_fixed_bits = pos form.fixed_bits;
      saw_fixed_match = true;
    }
    else if eqb_ℤ (pos form.fixed_bits) s.best_fixed_bits
    then record s { valid_matches = s.valid_matches ++ form ∷ []; saw_fixed_match = true }
    else record s { saw_fixed_match = true }

unfoldable pub scan : Tables → ℕ → ℕ → List MinstFormDesc → Scan → Scan
unfolding scan_form
scan t packed_bits length_bits [] s = s
scan t packed_bits length_bits (form ∷ forms) s =
    scan t packed_bits length_bits forms (scan_form t packed_bits length_bits form s)

-- The final loop: every field of the form is decoded into the packet.
unfoldable pub decode_fields : Tables → ℕ → List MinstFieldDesc → Minst → Minst
unfolding extract_field_value set_decoded_field
decode_fields t packed_bits [] out = rebuild_typed_views out
decode_fields t packed_bits (f ∷ fs) out = elim (extract_field_value t f packed_bits) [
  | none ↦ record out { decode_status = MinstCodecStatus.no_match }
  | some v ↦ decode_fields t packed_bits fs (set_decoded_field out f.name v f.is_signed f.bit_width)
]

abbrev pub accept_form : Minst → MinstFormDesc → Minst
accept_form out form =
    let named = set_form out (some form) in
    record named {
      valid_form = true;
      decode_status = MinstCodecStatus.ok;
      encode_status = MinstCodecStatus.ok;
      stage = elim named.stage [ MinstStage.invalid ↦ MinstStage.fetch | other ↦ other ];
      lifecycle = elim named.lifecycle [
        | MinstLifecycle.invalid ↦ MinstLifecycle.allocated
        | other ↦ other
      ];
    }

abbrev pub decode_outcome : Tables → ℕ → Scan → List MinstFormDesc → Minst → Minst
decode_outcome t packed_bits s [] out = record out {
  decode_status =
      if s.saw_fixed_match
      then MinstCodecStatus.constraint_violation
      else MinstCodecStatus.no_match;
}
decode_outcome t packed_bits s (form ∷ []) out =
    decode_fields t packed_bits (fields_for t form) (accept_form out form)
decode_outcome t packed_bits s (form ∷ other ∷ rest) out = record out {
  decode_status = MinstCodecStatus.ambiguous_match;
}

-- `DecodePackedWord` from the masked word on.
unfoldable pub decode_word : Tables → ℕ → ℕ → Minst → Minst
unfolding scan clear_decoded_state set_raw_encoding
decode_word t word length_bits out =
    let s = scan t word length_bits t.forms scan_start in
    decode_outcome t word s s.valid_matches
      (set_raw_encoding (clear_decoded_state out) word (length_bits % 2 ^ 8))

-- `DecodePackedWord`; the status that it returns is the packet's `decode_status`. A negative
-- length takes the first branch, as 0 does here.
unfoldable pub decode_packed_word : Tables → ℕ → ℕ → Minst → Minst
unfolding bit_mask decode_word clear_decoded_state set_raw_encoding decode_fields
    rebuild_typed_views set_form fields_for pieces_for
decode_packed_word t packed_bits length_bits out =
    if length_bits == 16 || length_bits == 32 || length_bits == 48 || length_bits == 64
    then decode_word t (bit_and packed_bits (bit_mask length_bits)) length_bits out
    else record (set_raw_encoding (clear_decoded_state out) packed_bits 0) {
      decode_status = MinstCodecStatus.invalid_length;
    }

-- `DecodeMinst`: the two halves of a word longer than 32 bits are joined first.
unfoldable pub decode_minst : Tables → ℕ → ℕ → ℕ → Minst → Minst
unfolding decode_packed_word
decode_minst t raw_lo raw_hi_or_packed length_bits out =
    decode_packed_word t
      (if ltb 32 length_bits
        then bit_or (bit_and raw_lo (bit_mask 32)) (shl64 raw_hi_or_packed 32)
        else raw_lo)
      length_bits out
