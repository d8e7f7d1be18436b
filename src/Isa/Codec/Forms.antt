-- ===== src/Isa/Codec/Forms.antt =====
-- The tables that src/isa/codec.cpp can encode with, and the field loop of `EncodeMinst` on them.
use Prim.Native.String.{String}
use text.Mathlib.Text.{◌==◌ as str_eq}
use text.Mathlib.TextEquality.{eq_iff}
use linx_model.Base.{
  ℕ, zero, suc, ◌+◌, ◌≤◌, ◌<◌, Bool, true, false, ◌||◌, ◌&&◌, some, List, [], ◌∷◌, ◌≡◌, refl, ◌∙◌,
  ap, ◌==◌, if◌then◌else◌, arith, Bool-cases, Option-cases, inl, inr,
}
use linx_model.Base.Bits.{bit}
use linx_model.Isa.Desc.{
  MinstFieldDesc, MinstFieldPieceDesc, MinstConstraintDesc, MinstFormDesc, Tables, fields_for,
  pieces_for,
}
use linx_model.Isa.Minst.{Minst, MinstDecodedField, put_field, find_field, find_decoded_field}
use linx_model.Isa.Minst.Fields.{find_field-put_field}
use linx_model.Isa.Codec.Word.{gather, encode_field_bits}
use linx_model.Isa.Codec.Pieces.{
  ArePieces, AllAgree, any_insn, gather-AllAgree, gather-lt, bit-place,
}
use linx_model.Isa.Codec.Values.{
  HasWidth, logical, extract-logical, fits_field-logical, bit-encode-logical,
}
use linx_model.Isa.Codec.Decode.{find_desc, constraint_ok, constraints_ok}
use linx_model.Isa.Codec.Encode.{Encoding, go, place, encode_fields, check_constraints}
use linx_model.Isa.Codec.Outcome.{decoded, decoded_all}

-- The fields of a form: none named twice, each of a width that the codec handles, with its pieces.
abbrev pub IsNew : String → List MinstFieldDesc → Type 0
IsNew name [] = Unit {0}
IsNew name (d ∷ ds) = (str_eq d.name name ≡ false) × IsNew name ds

abbrev pub AreFields : Tables → ℕ → List MinstFieldDesc → Type 0
AreFields t n [] = Unit {0}
AreFields t n (d ∷ ds) =
    HasWidth d × ArePieces d.bit_width n (pieces_for t d) × IsNew d.name ds × AreFields t n ds

-- Whether a bit of the word belongs to a field.
abbrev pub any_field : Tables → List MinstFieldDesc → ℕ → Bool
any_field t [] k = false
any_field t (d ∷ ds) k = any_insn (pieces_for t d) k || any_field t ds k

-- Every bit below `n` is fixed by the form or belongs to a field.
abbrev pub covers : Tables → MinstFormDesc → ℕ → Bool
covers t f zero = true
covers t f (suc n) = ((bit f.mask n == 1) || any_field t (fields_for t f) n) && covers t f n

abbrev pub IsForm : Tables → MinstFormDesc → Type 0
IsForm t f = AreFields t f.length_bits (fields_for t f) × (covers t f f.length_bits ≡ true)

abbrev pub AreForms : Tables → List MinstFormDesc → Type 0
AreForms t [] = Unit {0}
AreForms t (f ∷ fs) = IsForm t f × AreForms t fs

pub covers-bit :
    (t : Tables) (f : MinstFormDesc) (n k : ℕ)
    → covers t f n ≡ true
    → k < n
    → (bit f.mask k == 1) || any_field t (fields_for t f) k ≡ true
covers-bit t f zero k h lt = absurd (omega arith)
covers-bit t f (suc n) k h lt = elim (Bool-cases (k == n)) [
  | inl e ↦ let same : k ≡ n = ground arith in rw same (ground arith)
  | inr e ↦ covers-bit t f n k (ground arith) (ground arith)
]

-- The decoded field of each descriptor is found by its name.
module _ (t : Tables) (w : ℕ) where
  abbrev pub AllFound : Minst → List MinstFieldDesc → Type 0
  AllFound m [] = Unit {0}
  AllFound m (d ∷ ds) = (find_decoded_field m d.name ≡ some (decoded t w d)) × AllFound m ds

  find-decoded_all_new :
      (ds : List MinstFieldDesc) (fs : List MinstDecodedField) (name : String)
      → IsNew name ds
      → find_field name (decoded_all t w ds fs) ≡ find_field name fs
  unfolding decoded_all
  find-decoded_all_new [] fs name new = refl
  find-decoded_all_new (d ∷ ds) fs name new =
      find-decoded_all_new ds (put_field (decoded t w d) fs) name new.1
      ∙ find_field-put_field (decoded t w d) name fs
      ∙ ground (arith, new.0)

  pub AllFound-decoded_all :
      (n : ℕ) (m : Minst) (ds : List MinstFieldDesc) (fs : List MinstDecodedField)
      → AreFields t n ds
      → m.decoded_fields ≡ decoded_all t w ds fs
      → AllFound m ds
  unfolding decoded_all find_decoded_field
  AllFound-decoded_all n m [] fs ok e = tt
  AllFound-decoded_all n m (d ∷ ds) fs ok e = (
    ap (find_field d.name) e
        ∙ find-decoded_all_new ds (put_field (decoded t w d) fs) d.name ok.2
        ∙ find_field-put_field (decoded t w d) d.name fs
        ∙ ground (arith, eq_iff d.name d.name),
    AllFound-decoded_all n m ds (put_field (decoded t w d) fs) ok.3 e,
  )

  AllAgree-low :
      (b n raw raw' : ℕ) (ps : List MinstFieldPieceDesc)
      → ArePieces b n ps
      → ((k : ℕ) → k < b → bit raw' k ≡ bit raw k)
      → AllAgree w raw ps
      → AllAgree w raw' ps
  AllAgree-low b n raw raw' [] ok low agree = tt
  AllAgree-low b n raw raw' (p ∷ ps) ok low agree = (
    λ k h. low (p.value_lsb + k) (omega arith) ∙ agree.0 k h,
    AllAgree-low b n raw raw' ps ok.3 low agree.1,
  )

  -- The word agrees with the bits that the encoder places, in every piece.
  encode-AllAgree :
      (n : ℕ) (d : MinstFieldDesc)
      → HasWidth d
      → ArePieces d.bit_width n (pieces_for t d)
      → AllAgree w (encode_field_bits d (logical d (gather w (pieces_for t d) 0))) (pieces_for t d)
  encode-AllAgree n d wide ok =
      let raw = gather w (pieces_for t d) 0 in
      let narrow : d.bit_width ≤ 64 = ground arith in
      let small = gather-lt w d.bit_width n (pieces_for t d) narrow ok in
      AllAgree-low d.bit_width n raw _ (pieces_for t d) ok (bit-encode-logical d raw wide small)
        (gather-AllAgree w d.bit_width n (pieces_for t d) narrow ok)

  -- The word that the field loop of the encoder builds.
  abbrev pub Encodes : ℕ → List MinstFieldDesc → ℕ → Encoding ℕ → Type 0
  Encodes n ds bits e =
      (out : ℕ) × (e ≡ go out)
      × ((k : ℕ) → k < n → bit out k ≡ (if any_field t ds k then bit w k else bit bits k))

  pub encode_fields-Encodes :
      (n : ℕ) (m : Minst) (ds : List MinstFieldDesc) (bits : ℕ)
      → n ≤ 64
      → AreFields t n ds
      → AllFound m ds
      → Encodes n ds bits (encode_fields t m ds bits)
  unfolding encode_fields
  encode_fields-Encodes n m [] bits small ok found = (bits, refl, λ k h. refl)
  encode_fields-Encodes n m (d ∷ ds) bits small ok found =
      let raw = gather w (pieces_for t d) 0 in
      let narrow : d.bit_width ≤ 64 = ground arith in
      let fits =
        fits_field-logical d raw ok.0 (gather-lt w d.bit_width n (pieces_for t d) narrow ok.1) in
      let value = encode_field_bits d (logical d raw) in
      let placed = place value (pieces_for t d) bits in
      let (out, e, digits) = encode_fields-Encodes n m ds placed small ok.3 found.1 in
      (
        out,
        rw (found.0, encode_fields) (rw fits e),
        λ k h.
            digits k h
            ∙ ground (
              arith,
              bit-place w value d.bit_width n (pieces_for t d) bits k small ok.1
                  (encode-AllAgree n d ok.0 ok.1) h,
            ),
      )

  -- A constraint that the decoder accepted holds of the decoded field.
  find_desc-found :
      (m : Minst) (name : String) (ds : List MinstFieldDesc) (d : MinstFieldDesc)
      → AllFound m ds
      → find_desc name ds ≡ some d
      → find_decoded_field m name ≡ some (decoded t w d)
  unfolding find_desc
  find_desc-found m name [] d found e = cc
  find_desc-found m name (x ∷ ds) d found e = elim (Bool-cases (str_eq x.name name)) [
    | inl here ↦
        let same : x.name ≡ name = (eq_iff x.name name).0 here in
        let it : x ≡ d = ground arith in rw (← same, ← it) found.0
    | inr there ↦ find_desc-found m name ds d found.1 (ground arith)
  ]

  pub check_constraints-go :
      (m : Minst) (f : MinstFormDesc) (cs : List MinstConstraintDesc) (bits : ℕ)
      → AllFound m (fields_for t f)
      → constraints_ok t f w cs ≡ true
      → check_constraints m cs bits ≡ go bits
  unfolding check_constraints constraints_ok constraint_ok
  check_constraints-go m f [] bits found h = refl
  check_constraints-go m f (c ∷ cs) bits found h =
      elim (Option-cases (find_desc c.field_name (fields_for t f))) [
        | inl e ↦ ground arith
        | inr (d, e) ↦ ground (
          arith,
          find_desc-found m c.field_name (fields_for t f) d found e,
          extract-logical t d w,
          check_constraints-go m f cs bits found,
        )
      ]
