-- ===== src/Base/Text.antt =====
-- Texts as lists of byte codes, and how the code's streams print numbers.
use Prim.Native.Nat.{ℕ, zero, suc, ◌+◌, ◌-◌, ◌*◌, ◌/◌, ◌%◌, ◌<◌}
use Prim.Native.Char.{code}
use Prim.Native.String.{String}
use mathlib.Core.Path.{◌≡◌, refl, ap, ◌∙◌}
use mathlib.Core.Bool.{Bool, true, false, ◌&&◌}
use mathlib.Core.List.{List, [], ◌∷◌, ◌++◌}
use mathlib.Core.Logic.{inl, inr}
use native.Mathlib.Omega.{arith}
use linx_model.Base.Tests.{ltb, leb, if◌then◌else◌, Bool-cases}
use linx_model.Base.Lists.{length}
use linx_model.Base.Int.{ℤ, pos, negsuc}

abbrev pub Bytes : Type 0
Bytes = List ℕ

-- The bytes of an ASCII text.
abbrev pub codes : String → Bytes
codes String.[] = []
codes (String.◌∷◌ c s) = code c ∷ codes s

abbrev pub copies : ℕ → ℕ → Bytes
copies zero c = []
copies (suc n) c = c ∷ copies n c

-- `std::setw` with `std::setfill`, to the left and with `std::left`.
abbrev pub pad_left : ℕ → ℕ → Bytes → Bytes
pad_left width fill text = copies (width - length text) fill ++ text

abbrev pub pad_right : ℕ → ℕ → Bytes → Bytes
pad_right width fill text = text ++ copies (width - length text) fill

-- The digit of a value below 16.
abbrev pub digit : ℕ → ℕ
digit d = if ltb d 10 then b'0' + d else b'a' + (d - 10)

-- The digits of a number in front of a text; more fuel than the number is enough.
unfoldable pub digits : ℕ → ℕ → ℕ → Bytes → Bytes
digits base zero n rest = rest
digits base (suc fuel) n rest = elim (ltb n base) [
  | true ↦ digit n ∷ rest
  | false ↦ digits base fuel (n / base) (digit (n % base) ∷ rest)
]

unfoldable pub decimal : ℕ → Bytes
unfolding digits
decimal n = digits 10 (suc n) n []

unfoldable pub hexadecimal : ℕ → Bytes
unfolding digits
hexadecimal n = digits 16 (suc n) n []

unfoldable pub decimal_ℤ : ℤ → Bytes
unfolding decimal
decimal_ℤ (pos n) = decimal n
decimal_ℤ (negsuc n) = b'-' ∷ decimal (suc n)

abbrev pub is_digit : ℕ → Bool
is_digit c = leb b'0' c && leb c b'9'

-- The number at the front of a text, after the digits read so far, and what follows it.
unfoldable pub read_digits : ℕ → Bytes → ℕ × Bytes
read_digits n [] = (n, [])
read_digits n (c ∷ cs) = if is_digit c then read_digits (n * 10 + (c - b'0')) cs else (n, c ∷ cs)

read_digits-digit :
    (n d : ℕ) (rest : Bytes)
    → d < 10
    → read_digits n (digit d ∷ rest) ≡ read_digits (n * 10 + d) rest
unfolding read_digits
read_digits-digit n d rest lt = ground (arith, lt)

digits-test :
    (base fuel n : ℕ) (rest : Bytes) (b : Bool)
    → ltb n base ≡ b
    → digits base (suc fuel) n rest ≡ elim b [
      | true ↦ digit n ∷ rest
      | false ↦ digits base fuel (n / base) (digit (n % base) ∷ rest)
    ]
unfolding digits
digits-test base fuel n rest b e =
    ap
      (λ (t : Bool). elim t [
        | true ↦ digit n ∷ rest
        | false ↦ digits base fuel (n / base) (digit (n % base) ∷ rest)
      ])
      e

read_digits-digits :
    (fuel n : ℕ) (rest : Bytes)
    → n < fuel
    → read_digits 0 (digits 10 fuel n rest) ≡ read_digits n rest
unfolding digits
read_digits-digits zero n rest enough = absurd (omega arith)
read_digits-digits (suc fuel) n rest enough = elim (Bool-cases (ltb n 10)) [
  | inl low ↦
      let zeros : 0 * 10 + n ≡ n = omega arith in
      ap (read_digits 0) (digits-test 10 fuel n rest true low)
      ∙ read_digits-digit 0 n rest (ground (arith, low))
      ∙ ap (λ (m : ℕ). read_digits m rest) zeros
  | inr high ↦
      let again =
        read_digits-digits fuel (n / 10) (digit (n % 10) ∷ rest) (ground (arith, high, enough)) in
      let last = read_digits-digit (n / 10) (n % 10) rest (omega arith) in
      let whole : n / 10 * 10 + n % 10 ≡ n = omega arith in
      ap (read_digits 0) (digits-test 10 fuel n rest false high)
      ∙ again
      ∙ last
      ∙ ap (λ (m : ℕ). read_digits m rest) whole
]

digits-append :
    (base fuel n : ℕ) (front rest : Bytes)
    → digits base fuel n front ++ rest ≡ digits base fuel n (front ++ rest)
unfolding digits
digits-append base zero n front rest = refl
digits-append base (suc fuel) n front rest = elim (Bool-cases (ltb n base)) [
  | inl low ↦
      rw (digits-test base fuel n front true low, digits-test base fuel n (front ++ rest) true low)
        refl
  | inr high ↦
      rw
        (
          digits-test base fuel n front false high,
          digits-test base fuel n (front ++ rest) false high,
        )
        (digits-append base fuel (n / base) (digit (n % base) ∷ front) rest)
]

-- A printed number reads back, before whatever is no digit.
pub read_digits-decimal :
    (n c : ℕ) (rest : Bytes)
    → is_digit c ≡ false
    → read_digits 0 (decimal n ++ c ∷ rest) ≡ (n, c ∷ rest)
unfolding decimal read_digits
read_digits-decimal n c rest stop =
    let front = digits-append 10 (suc n) n [] (c ∷ rest) in
    rw front (read_digits-digits (suc n) n (c ∷ rest) (omega arith) ∙ rw stop refl)

digits-head :
    (fuel n : ℕ) (rest : Bytes)
    → n < fuel
    → (d : ℕ) × (ds : Bytes) × (digits 10 fuel n rest ≡ d ∷ ds) × (is_digit d ≡ true)
digits-head zero n rest enough = absurd (omega arith)
digits-head (suc fuel) n rest enough = elim (Bool-cases (ltb n 10)) [
  | inl low ↦ (digit n, rest, digits-test 10 fuel n rest true low, ground (arith, low))
  | inr high ↦
      let (d, ds, e, is) =
        digits-head fuel (n / 10) (digit (n % 10) ∷ rest) (ground (arith, high, enough)) in
      (d, ds, digits-test 10 fuel n rest false high ∙ e, is)
]

-- A printed number starts with a digit.
pub decimal-head : (n : ℕ) → (d : ℕ) × (ds : Bytes) × (decimal n ≡ d ∷ ds) × (is_digit d ≡ true)
unfolding decimal
decimal-head n = digits-head (suc n) n [] (omega arith)
