-- ===== src/Isa/Codec/Outcome.antt =====
-- What `DecodePackedWord` leaves in the packet, on every branch.
use Prim.Native.Nat.{bit_and}
use linx_model.Base.{
  ℕ, Bool, true, false, ◌||◌, some, List, [], ◌∷◌, ◌≡◌, refl, ◌∙◌, sym, ap, ap₂, ◌==◌, Bool-cases,
  inl, inr, if◌then◌else◌, arith,
}
use linx_model.Isa.Enums.{MinstCodecStatus}
use linx_model.Isa.Desc.{MinstFieldDesc, MinstFormDesc, Tables, fields_for, pieces_for}
use linx_model.Isa.Minst.{Minst, MinstDecodedField, put_field, set_decoded_field, set_form}
use linx_model.Isa.Minst.Views.{
  view_operand, view_immediate, view_fields, view_memory, classified, rebuild_typed_views,
}
use linx_model.Isa.Codec.Word.{bit_mask, gather}
use linx_model.Isa.Codec.Values.{logical, extract-logical}
use linx_model.Isa.Codec.Decode.{
  Scan, scan, scan_start, decode_fields, decode_outcome, decode_word, decode_packed_word,
  accept_form,
}
use linx_model.Isa.Codec.Search.{any_fixed_match, best_forms, scan-best_forms}

-- The parts of a packet that the typed views do not touch.
pub record Same (m m' : Minst) : Type 0 where
  pub fields : m'.decoded_fields ≡ m.decoded_fields
  pub form : m'.form ≡ m.form
  pub valid_form : m'.valid_form ≡ m.valid_form
  pub status : m'.decode_status ≡ m.decode_status
  pub raw : m'.raw_bits ≡ m.raw_bits

Same-trans : {a b c : Minst} → Same a b → Same b c → Same a c
Same-trans p q = record {
  fields = q.fields ∙ p.fields;
  form = q.form ∙ p.form;
  valid_form = q.valid_form ∙ p.valid_form;
  status = q.status ∙ p.status;
  raw = q.raw ∙ p.raw;
}

view_operand-Same : (m : Minst) (f : MinstDecodedField) → Same m (view_operand m f)
unfolding view_operand
view_operand-Same m f = ground arith

view_immediate-Same : (m : Minst) (f : MinstDecodedField) → Same m (view_immediate m f)
unfolding view_immediate
view_immediate-Same m f = ground arith

view_fields-Same : (fs : List MinstDecodedField) (m : Minst) → Same m (view_fields fs m)
unfolding view_fields
view_fields-Same [] m = record {
  fields = refl;
  form = refl;
  valid_form = refl;
  status = refl;
  raw = refl;
}
view_fields-Same (f ∷ fs) m =
    Same-trans (view_operand-Same m f)
      (Same-trans (view_immediate-Same (view_operand m f) f) (view_fields-Same fs _))

view_memory-Same : (m : Minst) → Same m (view_memory m)
unfolding view_memory
view_memory-Same m = ground arith

classified-Same : (m : Minst) → Same m (classified m)
unfolding classified
classified-Same m = record {
  fields = refl;
  form = refl;
  valid_form = refl;
  status = refl;
  raw = refl;
}

pub rebuild-Same : (m : Minst) → Same m (rebuild_typed_views m)
unfolding rebuild_typed_views
rebuild-Same m = Same-trans (classified-Same m) (
    Same-trans (view_fields-Same (classified m).decoded_fields (classified m))
      (view_memory-Same (view_fields (classified m).decoded_fields (classified m))))

-- The decoded field of a descriptor, and the fields after decoding a list of them.
abbrev pub decoded : Tables → ℕ → MinstFieldDesc → MinstDecodedField
decoded t w d = record {
  name = d.name;
  signed_hint = d.is_signed;
  bit_width = d.bit_width;
  logical_value = logical d (gather w (pieces_for t d) 0);
}

unfoldable pub decoded_all :
    Tables → ℕ → List MinstFieldDesc → List MinstDecodedField → List MinstDecodedField
decoded_all t w [] fs = fs
decoded_all t w (d ∷ ds) fs = decoded_all t w ds (put_field (decoded t w d) fs)

decode_fields-Same :
    (t : Tables) (w : ℕ) (ds : List MinstFieldDesc) (m : Minst)
    → Same
        (record m { decoded_fields = decoded_all t w ds m.decoded_fields })
        (decode_fields t w ds m)
unfolding decode_fields decoded_all
decode_fields-Same t w [] m = rebuild-Same m
decode_fields-Same t w (d ∷ ds) m =
    rw (extract-logical t d w, decode_fields)
      (decode_fields-Same t w ds (
        set_decoded_field m d.name (logical d (gather w (pieces_for t d) 0)) d.is_signed
          d.bit_width))

-- The status that the number of best forms calls for.
abbrev pub status_of : Bool → List MinstFormDesc → MinstCodecStatus
status_of saw [] = if saw then MinstCodecStatus.constraint_violation else MinstCodecStatus.no_match
status_of saw (f ∷ []) = MinstCodecStatus.ok
status_of saw (f ∷ g ∷ fs) = MinstCodecStatus.ambiguous_match

abbrev pub is_length : ℕ → Bool
is_length n = n == 16 || n == 32 || n == 48 || n == 64

decode_outcome-status :
    (t : Tables) (w : ℕ) (s : Scan) (fs : List MinstFormDesc) (m : Minst)
    → (decode_outcome t w s fs m).decode_status ≡ status_of s.saw_fixed_match fs
decode_outcome-status t w s [] m = refl
decode_outcome-status t w s (f ∷ []) m =
    (decode_fields-Same t w (fields_for t f) (accept_form m f)).status
decode_outcome-status t w s (f ∷ g ∷ fs) m = refl

decode_word-status :
    (t : Tables) (w n : ℕ) (m : Minst)
    → (decode_word t w n m).decode_status
      ≡ status_of (any_fixed_match t w n t.forms) (best_forms t w n)
unfolding decode_word
decode_word-status t w n m =
    let found = scan-best_forms t w n in
    decode_outcome-status t w (scan t w n t.forms scan_start) _ _ ∙ ap₂ status_of found.1 found.0

-- The status of a decode, for every table, word and length: a length other than 16, 32, 48 and 64
-- is refused; else, of the accepted forms that no accepted form beats in fixed bits, exactly one
-- means success and more mean an ambiguous match, and none means a constraint violation where the
-- length and the fixed bits of some form matched, and no match where they did not.
pub decode-status :
    (t : Tables) (packed n : ℕ) (m : Minst)
    → let w = bit_and packed (bit_mask n) in
      (decode_packed_word t packed n m).decode_status ≡ (
        if is_length n
        then status_of (any_fixed_match t w n t.forms) (best_forms t w n)
        else MinstCodecStatus.invalid_length)
unfolding decode_packed_word
decode-status t packed n m = elim (Bool-cases (is_length n)) [
  | inl e ↦ rw e (decode_word-status t (bit_and packed (bit_mask n)) n m)
  | inr e ↦ rw e refl
]

-- A successful decode.
pub record Decodes (t : Tables) (w n : ℕ) (m : Minst) : Type 0 where
  pub chosen : MinstFormDesc
  pub only : best_forms t w n ≡ chosen ∷ []
  pub form : m.form ≡ some chosen
  pub valid_form : m.valid_form ≡ true
  pub fields : m.decoded_fields ≡ decoded_all t w (fields_for t chosen) []

one_of_ok :
    (saw : Bool) (fs : List MinstFormDesc)
    → status_of saw fs ≡ MinstCodecStatus.ok
    → (f : MinstFormDesc) × (fs ≡ f ∷ [])
one_of_ok true [] h = cc
one_of_ok false [] h = cc
one_of_ok saw (f ∷ []) h = (f, refl)
one_of_ok saw (f ∷ g ∷ fs) h = cc

decode_outcome-one :
    (t : Tables) (w n : ℕ) (s : Scan) (fs : List MinstFormDesc) (f : MinstFormDesc) (m : Minst)
    → m.decoded_fields ≡ []
    → fs ≡ f ∷ []
    → best_forms t w n ≡ f ∷ []
    → Decodes t w n (decode_outcome t w s fs m)
unfolding set_form
decode_outcome-one t w n s fs f m empty e only = rw e (
    let same = decode_fields-Same t w (fields_for t f) (accept_form m f) in
    record {
      chosen = f;
      only = only;
      form = same.form;
      valid_form = same.valid_form;
      fields = same.fields ∙ ap (decoded_all t w (fields_for t f)) empty;
    })

decode_word-Decodes :
    (t : Tables) (w n : ℕ) (m : Minst)
    → (decode_word t w n m).decode_status ≡ MinstCodecStatus.ok
    → Decodes t w n (decode_word t w n m)
unfolding decode_word
decode_word-Decodes t w n m h =
    let found = scan-best_forms t w n in
    let (f, only) =
      one_of_ok (any_fixed_match t w n t.forms) (best_forms t w n)
        (sym (decode_word-status t w n m) ∙ h) in
    decode_outcome-one t w n (scan t w n t.forms scan_start) _ f _ refl (found.0 ∙ only) only

pub decode-Decodes :
    (t : Tables) (packed n : ℕ) (m : Minst)
    → (decode_packed_word t packed n m).decode_status ≡ MinstCodecStatus.ok
    → (is_length n ≡ true)
      × Decodes t (bit_and packed (bit_mask n)) n (decode_packed_word t packed n m)
unfolding decode_packed_word
decode-Decodes t packed n m h = elim (Bool-cases (is_length n)) [
  | inl e ↦ (
    e,
    rw (e, decode_packed_word)
        (decode_word-Decodes t (bit_and packed (bit_mask n)) n m (rw e at h)),
  )
  | inr e ↦ ground arith
]
