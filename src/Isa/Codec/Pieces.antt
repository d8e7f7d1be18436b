-- ===== src/Isa/Codec/Pieces.antt =====
-- The pieces of a field: gathering them from a word, and placing them back.
use Prim.Native.Nat.{bit_or}
use linx_model.Base.{
  ℕ, ◌+◌, ◌-◌, ◌^◌, ◌≤◌, ◌<◌, Bool, true, false, ◌||◌, List, [], ◌∷◌, ◌≡◌, refl, ◌∙◌, if◌then◌else◌,
  ◌⊎◌, inl, inr, arith, Bool-cases,
}
use linx_model.Base.Bits.{bit, bit-or, bit-zero, lt-pow_of_bits}
use linx_model.Isa.Desc.{MinstFieldPieceDesc}
use linx_model.Isa.Codec.Word.{piece_bits, gather}
use linx_model.Isa.Codec.Encode.{place_piece, place}
use linx_model.Isa.Codec.Digits.{in_value, in_insn, bit-piece_bits, bit-place_piece}

-- Whether a place of the value, or of the word, belongs to one of the pieces.
abbrev pub any_value : List MinstFieldPieceDesc → ℕ → Bool
any_value [] k = false
any_value (p ∷ ps) k = in_value p k || any_value ps k

abbrev pub any_insn : List MinstFieldPieceDesc → ℕ → Bool
any_insn [] k = false
any_insn (p ∷ ps) k = in_insn p k || any_insn ps k

-- The places of `p` in the value are none of the others'.
abbrev pub Apart : MinstFieldPieceDesc → List MinstFieldPieceDesc → Type 0
Apart p [] = Unit {0}
Apart p (q ∷ qs) =
    ((p.value_lsb + p.width ≤ q.value_lsb) ⊎ (q.value_lsb + q.width ≤ p.value_lsb)) × Apart p qs

-- Pieces of a value of `bit_width` bits in a word of `length_bits` bits, apart in the value.
abbrev pub ArePieces : ℕ → ℕ → List MinstFieldPieceDesc → Type 0
ArePieces bit_width length_bits [] = Unit {0}
ArePieces bit_width length_bits (p ∷ ps) =
    (p.value_lsb + p.width ≤ bit_width)
    × (p.insn_lsb + p.width ≤ length_bits)
    × Apart p ps
    × ArePieces bit_width length_bits ps

-- The word `w` and the value `raw` have the same bits in a piece, and in all pieces.
abbrev pub Agrees : ℕ → ℕ → MinstFieldPieceDesc → Type 0
Agrees w raw p = (k : ℕ) → k < p.width → bit raw (p.value_lsb + k) ≡ bit w (p.insn_lsb + k)

abbrev pub AllAgree : ℕ → ℕ → List MinstFieldPieceDesc → Type 0
AllAgree w raw [] = Unit {0}
AllAgree w raw (p ∷ ps) = Agrees w raw p × AllAgree w raw ps

Apart-any_value :
    (p : MinstFieldPieceDesc) (qs : List MinstFieldPieceDesc) (k : ℕ)
    → Apart p qs
    → in_value p k ≡ true
    → any_value qs k ≡ false
Apart-any_value p [] k a h = refl
Apart-any_value p (q ∷ qs) k a h = ground (arith, Apart-any_value p qs k a.1 h, a.0)

any_value-above :
    (b l : ℕ) (ps : List MinstFieldPieceDesc) (k : ℕ)
    → ArePieces b l ps
    → b ≤ k
    → any_value ps k ≡ false
any_value-above b l [] k ok h = refl
any_value-above b l (p ∷ ps) k ok h = ground (arith, any_value-above b l ps k ok.3 h)

-- Bits outside every piece are left alone by the gathering loop.
bit-gather_outside :
    (w b l : ℕ) (ps : List MinstFieldPieceDesc) (raw k : ℕ)
    → b ≤ 64
    → ArePieces b l ps
    → any_value ps k ≡ false
    → bit (gather w ps raw) k ≡ bit raw k
unfolding gather
bit-gather_outside w b l [] raw k s ok h = refl
bit-gather_outside w b l (p ∷ ps) raw k s ok h =
    let out : (in_value p k ≡ false) × (any_value ps k ≡ false) = ground arith in
    let fits : p.value_lsb + p.width ≤ 64 = omega arith in
    bit-gather_outside w b l ps (bit_or raw (piece_bits w p)) k s ok.3 out.1
    ∙ bit-or raw (piece_bits w p) k
    ∙ ground (arith, bit-piece_bits w p k fits, out.0)

-- A gathered value has the bits of the word in every piece.
gather-AllAgree_from :
    (w b l : ℕ) (ps : List MinstFieldPieceDesc) (raw : ℕ)
    → b ≤ 64
    → ArePieces b l ps
    → ((k : ℕ) → any_value ps k ≡ true → bit raw k ≡ 0)
    → AllAgree w (gather w ps raw) ps
unfolding gather
gather-AllAgree_from w b l [] raw s ok clear = tt
gather-AllAgree_from w b l (p ∷ ps) raw s ok clear = (
  λ k small.
      let fits : p.value_lsb + p.width ≤ 64 = omega arith in
      let here : in_value p (p.value_lsb + k) ≡ true = ground arith in
      let e : p.value_lsb + k - p.value_lsb ≡ k = omega arith in
      bit-gather_outside w b l ps (bit_or raw (piece_bits w p)) (p.value_lsb + k) s ok.3
        (Apart-any_value p ps (p.value_lsb + k) ok.2 here)
      ∙ bit-or raw (piece_bits w p) (p.value_lsb + k)
      ∙ ground (arith, bit-piece_bits w p (p.value_lsb + k) fits, clear (p.value_lsb + k), here, e),
  gather-AllAgree_from w b l ps (bit_or raw (piece_bits w p)) s ok.3 λ k inside.
      let fits : p.value_lsb + p.width ≤ 64 = omega arith in
      bit-or raw (piece_bits w p) k
      ∙ ground (arith, bit-piece_bits w p k fits, clear k, Apart-any_value p ps k ok.2),
)

pub gather-AllAgree :
    (w b l : ℕ) (ps : List MinstFieldPieceDesc)
    → b ≤ 64
    → ArePieces b l ps
    → AllAgree w (gather w ps 0) ps
gather-AllAgree w b l ps s ok = gather-AllAgree_from w b l ps 0 s ok (λ k h. bit-zero k)

-- A gathered value fits the width of its field.
pub gather-lt :
    (w b l : ℕ) (ps : List MinstFieldPieceDesc) → b ≤ 64 → ArePieces b l ps → gather w ps 0 < 2 ^ b
gather-lt w b l ps s ok =
    lt-pow_of_bits b (gather w ps 0)
      λ k h. bit-gather_outside w b l ps 0 k s ok (any_value-above b l ps k ok h) ∙ bit-zero k

-- Placing a value that agrees with the word makes the bits of the pieces those of the word, and
-- leaves the others alone.
pub bit-place :
    (w raw b l : ℕ) (ps : List MinstFieldPieceDesc) (bits k : ℕ)
    → l ≤ 64
    → ArePieces b l ps
    → AllAgree w raw ps
    → k < l
    → bit (place raw ps bits) k ≡ (if any_insn ps k then bit w k else bit bits k)
unfolding place
bit-place w raw b l [] bits k s ok agree small = refl
bit-place w raw b l (p ∷ ps) bits k s ok agree small =
    let fits : p.insn_lsb + p.width ≤ 64 = omega arith in
    let here = agree.0 (k - p.insn_lsb) in
    bit-place w raw b l ps (place_piece raw p bits) k s ok.3 agree.1 small
    ∙ elim (Bool-cases (any_insn ps k)) [
      | inl e ↦ ground arith
      | inr e ↦
          ground (arith, bit-place_piece raw p bits k fits, agree.0 (k - p.insn_lsb), inside p k)
    ]
  where
    inside :
        (p : MinstFieldPieceDesc) (k : ℕ) → in_insn p k ≡ true → p.insn_lsb + (k - p.insn_lsb) ≡ k
    inside p k h = ground arith
