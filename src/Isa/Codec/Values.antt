-- ===== src/Isa/Codec/Values.antt =====
-- The logical value of a field: two's complement, and back to the bits of the word.
use Prim.Native.Nat.{bit_and, bit_or}
use native.Mathlib.Nat.{pow-suc, pow-le-pow_right, add-mul-mod_self_right, mod-eq_of_lt}
use linx_model.Base.{
  ℕ, zero, suc, ◌+◌, ◌-◌, ◌*◌, ◌%◌, ◌^◌, ◌≤◌, ◌<◌, true, false, ◌≡◌, some, ◌∙◌, ap, sym, ◌==◌, ltb,
  if◌then◌else◌, inl, inr, arith, Bool-cases,
}
use linx_model.Base.Int.{ℤ, pos, negsuc, to_u64, to_i64}
use linx_model.Base.Bits.{
  bit, bit_and-pow, bit-le-one, bit_of_lt, lt-pow_of_bits, bit_or-add, pow-add, bit-mod,
}
use linx_model.Isa.Desc.{MinstFieldDesc, Tables, pieces_for}
use linx_model.Isa.Codec.Word.{
  bit_mask, sign_extend, gather, extract_field_value, fits_field, encode_field_bits,
}
use linx_model.Isa.Codec.Digits.{bit-masked}

-- 2 ^ 64 splits at a width.
split_width : (b : ℕ) → b ≤ 64 → 2 ^ 64 ≡ 2 ^ (64 - b) * 2 ^ b
split_width b h =
    let e : 64 - b + b ≡ 64 = omega arith in ap (λ (t : ℕ). 2 ^ t) (sym e) ∙ pow-add (64 - b) b

pow-pred : (b : ℕ) → 0 < b → 2 ^ b ≡ 2 ^ (b - 1) * 2
pow-pred zero h = elim h [ ]
pow-pred (suc b) h = let e : suc b - 1 ≡ b = omega arith in rw e (pow-suc 2 b)

pow-le : (a b : ℕ) → a ≤ b → 2 ^ a ≤ 2 ^ b
pow-le a b h = pow-le-pow_right {n = 2} (omega arith) h

pred_mul : (a c : ℕ) → (a - 1) * c ≡ a * c - c
pred_mul zero c = omega arith
pred_mul (suc a) c = let e : suc a - 1 ≡ a = omega arith in rw e (omega arith)

-- The `|` of a negative value fills the bits above the width.
fill_above :
    (raw b : ℕ)
    → b ≤ 64
    → raw < 2 ^ b
    → bit_or raw (2 ^ 64 - 1 - (2 ^ b - 1)) ≡ raw + (2 ^ 64 - 2 ^ b)
fill_above raw b h small =
    let top : (2 ^ (64 - b) - 1) * 2 ^ b ≡ 2 ^ 64 - 2 ^ b =
      pred_mul (2 ^ (64 - b)) (2 ^ b) ∙ ap (λ (t : ℕ). t - 2 ^ b) (sym (split_width b h)) in
    let high : 2 ^ 64 - 1 - (2 ^ b - 1) ≡ (2 ^ (64 - b) - 1) * 2 ^ b =
      omega (arith, top, pow-le 0 b (omega arith)) in
    rw high (bit_or-add b (2 ^ (64 - b) - 1) raw small ∙ ap (λ (t : ℕ). raw + t) top)

-- The top bit splits the values of `b` bits in the middle.
below_half : (raw b : ℕ) → 0 < b → raw < 2 ^ b → bit raw (b - 1) ≡ 0 → raw < 2 ^ (b - 1)
below_half raw b h small e = lt-pow_of_bits (b - 1) raw λ k le. elim (Bool-cases (k == b - 1)) [
  | inl here ↦ ground arith
  | inr above ↦ bit_of_lt b raw k small (ground arith)
]

sign_bit :
    (raw b : ℕ) → 0 < b → raw < 2 ^ b → (bit_and raw (2 ^ (b - 1)) == 0) ≡ ltb raw (2 ^ (b - 1))
sign_bit raw b h small = elim (Bool-cases (ltb raw (2 ^ (b - 1)))) [
  | inl low ↦
      let off : bit raw (b - 1) ≡ 0 = bit_of_lt (b - 1) raw (b - 1) (ground arith) (omega arith) in
      rw (bit_and-pow, off, low) (ground arith)
  | inr high ↦
      let on : bit raw (b - 1) ≡ 1 =
        grind (arith, below_half raw b h small, bit-le-one raw (b - 1)) in
      rw (bit_and-pow, on, high) (ground (arith, pow-le 0 (b - 1)))
]

-- `SignExtend` reads a value of `b` bits, `b` from 1 to 64, in two's complement: the value itself
-- below 2 ^ (b - 1), and the value less 2 ^ b from there on.
pub sign_extend_lem :
    (raw b : ℕ)
    → 0 < b
    → b ≤ 64
    → raw < 2 ^ b
    → sign_extend raw b ≡ (if ltb raw (2 ^ (b - 1)) then pos raw else negsuc (2 ^ b - 1 - raw))
unfolding sign_extend bit_mask
sign_extend_lem raw b h wide small = ground (
  arith,
  sign_bit raw b h small,
  fill_above raw b wide small,
  pow-pred b h,
  pow-le b 64 wide,
  pow-le (b - 1) 63,
)

-- The value of a field with the gathered bits `raw`.
abbrev pub logical : MinstFieldDesc → ℕ → ℤ
logical d raw = if d.is_signed then sign_extend raw d.bit_width else to_i64 raw

pub extract-logical :
    (t : Tables) (d : MinstFieldDesc) (w : ℕ)
    → extract_field_value t d w ≡ some (logical d (gather w (pieces_for t d) 0))
unfolding extract_field_value
extract-logical t d w = ground arith

-- A field that the codec handles: from 1 to 64 bits wide, at most 63 if unsigned.
abbrev pub HasWidth : MinstFieldDesc → Type 0
HasWidth d = (0 < d.bit_width) × (d.bit_width ≤ (if d.is_signed then 64 else 63))

module _ (d : MinstFieldDesc) (raw : ℕ) (wide : HasWidth d) (small : raw < 2 ^ d.bit_width) where
  logical-signed :
      d.is_signed ≡ true
      → logical d raw
        ≡ (if ltb raw (2 ^ (d.bit_width - 1)) then pos raw else negsuc (2 ^ d.bit_width - 1 - raw))
  logical-signed s = rw s (sign_extend_lem raw d.bit_width wide.0 (ground arith) small)

  logical-unsigned : d.is_signed ≡ false → logical d raw ≡ pos raw
  logical-unsigned u =
      let top : 2 ^ d.bit_width ≤ 2 ^ 63 = pow-le d.bit_width 63 (ground arith) in
      rw u (ground arith)

  -- As a `uint64_t` the value is the gathered bits, up to a multiple of 2 ^ bit_width.
  to_u64-logical : to_u64 (logical d raw) % 2 ^ d.bit_width ≡ raw
  to_u64-logical = elim (Bool-cases d.is_signed) [
    | inl s ↦
        let top = pow-le d.bit_width 64 (ground arith) in
        let full = split_width d.bit_width (ground arith) in
        let again : (raw + (2 ^ (64 - d.bit_width) - 1) * 2 ^ d.bit_width) % 2 ^ d.bit_width ≡ raw =
          add-mul-mod_self_right raw (2 ^ (64 - d.bit_width) - 1) (2 ^ d.bit_width)
          ∙ mod-eq_of_lt small in
        rw (logical-signed s) (
          ground (
            arith,
            again,
            mod-eq_of_lt small,
            pred_mul (2 ^ (64 - d.bit_width)) (2 ^ d.bit_width),
            full,
            top,
          ))
    | inr u ↦ rw (logical-unsigned u) (mod-eq_of_lt small)
  ]

  -- A decoded value passes the range test of the encoder.
  pub fits_field-logical : fits_field d (logical d raw) ≡ true
  unfolding fits_field bit_mask
  fits_field-logical = elim (Bool-cases d.is_signed) [
    | inl s ↦ ground (arith, logical-signed s, pow-pred d.bit_width wide.0)
    | inr u ↦ ground (arith, logical-unsigned u)
  ]

  -- The encoder gets back the bits of the value.
  pub bit-encode-logical :
      (k : ℕ) → k < d.bit_width → bit (encode_field_bits d (logical d raw)) k ≡ bit raw k
  unfolding encode_field_bits
  bit-encode-logical k inside =
      bit-masked (to_u64 (logical d raw)) d.bit_width k
      ∙ ground (arith, bit-mod (to_u64 (logical d raw)) d.bit_width k, to_u64-logical)
