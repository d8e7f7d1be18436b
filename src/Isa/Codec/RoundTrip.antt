-- ===== src/Isa/Codec/RoundTrip.antt =====
-- Encoding what was decoded gives the word back.
use Prim.Native.Nat.{bit_and}
use linx_model.Base.{
  ℕ, ◌%◌, ◌^◌, ◌≤◌, ◌<◌, Bool, true, some, List, [], ◌∷◌, ◌≡◌, refl, ◌∙◌, sym, ap, subst, length,
  ltb, keep_if, if◌then◌else◌, arith, Bool-cases, inl, inr,
}
use linx_model.Base.Bits.{bit, bit_ext, bit-and, bit-le-one}
use linx_model.Isa.Enums.{MinstCodecStatus}
use linx_model.Isa.Desc.{MinstFormDesc, Tables, fields_for, constraints_for}
use linx_model.Isa.Minst.{Minst}
use linx_model.Isa.Codec.Word.{bit_mask}
use linx_model.Isa.Codec.Digits.{bit-masked}
use linx_model.Isa.Codec.Decode.{constraints_ok, decode_packed_word}
use linx_model.Isa.Codec.Encode.{
  go, encode_fields, check_constraints, encode_form, finish_encoding, encode_minst,
}
use linx_model.Isa.Codec.Outcome.{Decodes, decode-Decodes, is_length}
use linx_model.Isa.Codec.Forms.{
  any_field, covers, IsForm, AreForms, AllFound-decoded_all, encode_fields-Encodes,
  check_constraints-go, covers-bit,
}

module _ (t : Tables) (w : ℕ) where
  -- The finished word, digit by digit.
  finished-eq :
      (f : MinstFormDesc) (n packed out : ℕ)
      → w ≡ bit_and packed (bit_mask n)
      → n ≤ 64
      → bit_and w f.mask ≡ f.match
      → covers t f n ≡ true
      → ((k : ℕ)
          → k < n
          → bit out k ≡ (if any_field t (fields_for t f) k then bit w k else bit f.match k))
      → bit_and out (bit_mask n) ≡ w
  finished-eq f n packed out word small fixed cover digits = bit_ext _ _ λ k.
      bit-masked out n k ∙ elim (Bool-cases (ltb k n)) [
        | inl low ↦ ground (
          arith,
          digits k,
          covers-bit t f n k cover,
          bit-and w f.mask k,
          bit-le-one w k,
          ap (λ (x : ℕ). bit x k) fixed,
        )
        | inr high ↦ rw word (ground (arith, bit-masked packed n k))
      ]

keep_if-head :
    (t : Tables) (p : MinstFormDesc → Bool) (fs : List MinstFormDesc) {f : MinstFormDesc}
    → AreForms t fs
    → keep_if p fs ≡ f ∷ []
    → IsForm t f × (p f ≡ true)
keep_if-head t p [] ok e = absurd (omega (arith, ap length e))
keep_if-head t p (x ∷ fs) {f} ok e = elim (Bool-cases (p x)) [
  | inl yes_x ↦
      let same : x ≡ f = ground arith in (subst (IsForm t) same ok.0, ap p (sym same) ∙ yes_x)
  | inr no_x ↦ keep_if-head t p fs ok.1 (ground arith)
]

encode_minst-go :
    (t : Tables) (m : Minst) (f : MinstFormDesc) (placed out : ℕ)
    → m.form ≡ some f
    → m.valid_form ≡ true
    → encode_fields t m (fields_for t f) f.match ≡ go placed
    → check_constraints m (constraints_for t f) placed ≡ go out
    → encode_minst t m ≡ finish_encoding f (go out)
unfolding encode_minst
encode_minst-go t m f placed out form valid e c =
    let whole : encode_form t m f ≡ go out = ground arith in rw (form, encode_minst) (ground arith)

finished_word :
    (f : MinstFormDesc) (n out w : ℕ)
    → f.length_bits ≡ n
    → n ≤ 64
    → bit_and out (bit_mask n) ≡ w
    → finish_encoding f (go out)
      ≡ record { bits = w; length_bits = n; valid = true; status = MinstCodecStatus.ok }
finished_word f n out w same small e =
    let cut : f.length_bits % 2 ^ 8 ≡ n = omega arith in rw (cut, e)

encode-Decodes :
    (t : Tables) (packed n : ℕ) (m : Minst)
    → AreForms t t.forms
    → is_length n ≡ true
    → Decodes t (bit_and packed (bit_mask n)) n m
    → encode_minst t m ≡ record {
      bits = bit_and packed (bit_mask n);
      length_bits = n;
      valid = true;
      status = MinstCodecStatus.ok;
    }
encode-Decodes t packed n m ok len d =
    let w = bit_and packed (bit_mask n) in
    let f = d.chosen in
    let (form, best) = keep_if-head t _ t.forms ok d.only in
    let same : f.length_bits ≡ n = ground arith in
    let fixed : bit_and w f.mask ≡ f.match = ground arith in
    let constraints : constraints_ok t f w (constraints_for t f) ≡ true = ground arith in
    let found = AllFound-decoded_all t w f.length_bits m (fields_for t f) [] form.0 d.fields in
    let (out, e, digits) =
      encode_fields-Encodes t w f.length_bits m (fields_for t f) f.match (ground arith) form.0
        found in
    let checked = check_constraints-go t w m f (constraints_for t f) out found constraints in
    let cover : covers t f n ≡ true = subst (λ l. covers t f l ≡ true) same form.1 in
    let low : (k : ℕ)
        → k < n
        → bit out k ≡ (if any_field t (fields_for t f) k then bit w k else bit f.match k) =
      λ k h. digits k (omega arith) in
    encode_minst-go t m f out out d.form d.valid_form e checked
    ∙ finished_word f n out w same (ground arith)
        (finished-eq t w f n packed out refl (ground arith) fixed cover low)

-- Over well-formed tables, encoding the packet of a successful decode succeeds and gives back the
-- decoded word (cut to its length) and its length: every bit that the decoder reads from a field,
-- signed or not and in however many pieces, is put back in its place.
pub encode-decode :
    (t : Tables) (packed n : ℕ) (m : Minst)
    → AreForms t t.forms
    → (decode_packed_word t packed n m).decode_status ≡ MinstCodecStatus.ok
    → encode_minst t (decode_packed_word t packed n m) ≡ record {
      bits = bit_and packed (bit_mask n);
      length_bits = n;
      valid = true;
      status = MinstCodecStatus.ok;
    }
encode-decode t packed n m ok h =
    let (len, d) = decode-Decodes t packed n m h in encode-Decodes t packed n _ ok len d
