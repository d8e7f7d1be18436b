-- ===== src/Base/Bits.antt =====
-- Binary digits of native numbers, and what `&`, `|`, shifts and low masks do to them, at every
-- width: two numbers with the same digits are equal.
use Prim.Native.Nat.{
  ℕ, zero, suc, ◌+◌, ◌-◌, ◌*◌, ◌/◌, ◌%◌, ◌^◌, ◌≤◌, ◌<◌, min, max, bit_and, bit_or, digits,
  bit_and-bitwise, bit_or-bitwise,
}
use mathlib.Core.Path.{◌≡◌, refl, sym, ap, ◌∙◌}
use mathlib.Core.Logic.{◌⊎◌, inl, inr}
use native.Mathlib.Nat.{
  le_refl, pow-suc, one-le-pow, div-div-eq-div-mul, div-add-mod, mod-lt, mod-eq_of_lt,
  add-mul-mod_self_left, mul_assoc, mul_comm, mul-one, div-one,
}
use native.Mathlib.Omega.{arith}
use linx_model.Base.Tests.{ltb, ◌==◌, if◌then◌else◌}

-- The digit of weight 2 ^ k.
unfoldable pub bit : ℕ → ℕ → ℕ
bit x zero = x % 2
bit x (suc k) = bit (x / 2) k

pub bit-le-one : (x k : ℕ) → bit x k ≤ 1
unfolding bit
bit-le-one x zero = omega arith
bit-le-one x (suc k) = bit-le-one (x / 2) k

pub bit-zero : (k : ℕ) → bit 0 k ≡ 0
unfolding bit
bit-zero zero = refl
bit-zero (suc k) = bit-zero k

-- The recursion that the native operations stand for works on each digit by itself: the digit of
-- the result is `f` of the operands' digits. `z` is what is left where the first operand ends.
module _ (z : ℕ → ℕ) (f : ℕ → ℕ → ℕ) (digit : (x y : ℕ) → x ≤ 1 → y ≤ 1 → f x y ≤ 1)
    (ends : (b k : ℕ) → bit (z b) k ≡ f 0 (bit b k)) where
  bit-digits : (fuel a b k : ℕ) → a ≤ fuel → bit (digits z f fuel a b) k ≡ f (bit a k) (bit b k)
  unfolding bit
  bit-digits zero zero b k h = rw (bit-zero k) (ends b k)
  bit-digits (suc fuel) zero b k h = rw (bit-zero k) (ends b k)
  bit-digits zero (suc a) b k h = absurd (omega arith)
  bit-digits (suc fuel) (suc a) b zero h =
      omega (arith, digit (suc a % 2) (b % 2) (omega arith) (omega arith))
  bit-digits (suc fuel) (suc a) b (suc k) h =
      let low = digit (suc a % 2) (b % 2) (omega arith) (omega arith) in
      let half : digits z f (suc fuel) (suc a) b / 2 ≡ digits z f fuel (suc a / 2) (b / 2) =
        omega (arith, low) in
      rw half (bit-digits fuel (suc a / 2) (b / 2) k (omega arith))

pub bit-and : (a b k : ℕ) → bit (bit_and a b) k ≡ min (bit a k) (bit b k)
bit-and a b k = simp bit_and-bitwise (
    bit-digits (λ y. 0) min (λ x y p q. omega arith) (λ y i. omega (arith, bit-zero i)) a a b k
      (le_refl a))

pub bit-or : (a b k : ℕ) → bit (bit_or a b) k ≡ max (bit a k) (bit b k)
bit-or a b k =
    simp bit_or-bitwise
      (bit-digits (λ y. y) max (λ x y p q. omega arith) (λ y i. omega arith) a a b k (le_refl a))

-- Two numbers with the same digits are equal.
bit_ext_fuel : (n a b : ℕ) → a + b ≤ n → ((k : ℕ) → bit a k ≡ bit b k) → a ≡ b
unfolding bit
bit_ext_fuel zero a b h e = omega arith
bit_ext_fuel (suc n) zero zero h e = refl
bit_ext_fuel (suc n) (suc a) b h e =
    omega (arith, e 0, bit_ext_fuel n (suc a / 2) (b / 2) (omega arith) (λ k. e (suc k)))
bit_ext_fuel (suc n) zero (suc b) h e =
    omega (arith, e 0, bit_ext_fuel n 0 (suc b / 2) (omega arith) (λ k. e (suc k)))

pub bit_ext : (a b : ℕ) → ((k : ℕ) → bit a k ≡ bit b k) → a ≡ b
bit_ext a b = bit_ext_fuel (a + b) a b (le_refl _)

-- Shifts, remainders by a power of two, and masks of low ones.
pub two_pow-pos : (s : ℕ) → 1 ≤ 2 ^ s
two_pow-pos s = one-le-pow s 2 (omega arith)

div-pow-suc : (x s : ℕ) → x / 2 ^ suc s ≡ x / 2 / 2 ^ s
div-pow-suc x s =
    sym (div-div-eq-div-mul x 2 (2 ^ s) ∙ ap (λ (t : ℕ). x / t) (omega (arith, pow-suc 2 s)))

-- `x % 2P` from the digits of `x / 2 % P`.
mod_double : (x p : ℕ) → 1 ≤ p → x % (p * 2) ≡ x / 2 % p * 2 + x % 2
mod_double x p h =
    let low = x / 2 % p * 2 + x % 2 in
    let q = x / 2 / p in
    let below : low < p * 2 = omega (arith, mod-lt (x / 2) {m = p} h) in
    let split : x ≡ low + p * 2 * q =
      omega (arith, div-add-mod (x / 2) p, mul_assoc p 2 q, mul_comm 2 q, mul_assoc p q 2) in
    ap (λ (t : ℕ). t % (p * 2)) split ∙ add-mul-mod_self_left low (p * 2) q ∙ mod-eq_of_lt below

pub bit-shr : (x s k : ℕ) → bit (x / 2 ^ s) k ≡ bit x (s + k)
unfolding bit
bit-shr x zero k = let e : 0 + k ≡ k = omega arith in rw (e, div-one x)
bit-shr x (suc s) k =
    let e : suc s + k ≡ suc (s + k) = omega arith in rw (div-pow-suc x s, e) (bit-shr (x / 2) s k)

pub bit-shl : (x s k : ℕ) → bit (x * 2 ^ s) k ≡ (if ltb k s then 0 else bit x (k - s))
unfolding bit
bit-shl x zero k = let e : k - 0 ≡ k = omega arith in rw (mul-one x, e) (ground arith)
bit-shl x (suc s) zero = ground (arith, pow-suc 2 s, ap (λ (t : ℕ). x * t) (pow-suc 2 s))
bit-shl x (suc s) (suc k) =
    let half : x * 2 ^ suc s / 2 ≡ x * 2 ^ s = omega (arith, ap (λ (t : ℕ). x * t) (pow-suc 2 s)) in
    rw half (ground (arith, bit-shl x s k))

-- Remainders by a power of two keep the low digits.
pub bit-mod : (x w k : ℕ) → bit (x % 2 ^ w) k ≡ (if ltb k w then bit x k else 0)
unfolding bit
bit-mod x zero k = ground (arith, bit-zero k)
bit-mod x (suc w) zero = ground (arith, mod_double x (2 ^ w) (two_pow-pos w), pow-suc 2 w)
bit-mod x (suc w) (suc k) =
    let half : x % 2 ^ suc w / 2 ≡ x / 2 % 2 ^ w =
      rw pow-suc (omega (arith, mod_double x (2 ^ w) (two_pow-pos w))) in
    rw half (ground (arith, bit-mod (x / 2) w k))

pub bit-low_mask : (w k : ℕ) → bit (2 ^ w - 1) k ≡ (if ltb k w then 1 else 0)
unfolding bit
bit-low_mask zero k = ground (arith, bit-zero k)
bit-low_mask (suc w) zero = ground (arith, pow-suc 2 w, two_pow-pos w)
bit-low_mask (suc w) (suc k) =
    let half : (2 ^ suc w - 1) / 2 ≡ 2 ^ w - 1 = omega (arith, pow-suc 2 w, two_pow-pos w) in
    rw half (ground (arith, bit-low_mask w k))

-- The complement in `w` bits.
pub bit-complement :
    (w x k : ℕ) → x < 2 ^ w → bit (2 ^ w - 1 - x) k ≡ (if ltb k w then 1 - bit x k else 0)
unfolding bit
bit-complement zero x k h =
    let e : 2 ^ 0 - 1 - x ≡ 0 = omega arith in rw e (ground (arith, bit-zero k))
bit-complement (suc w) x zero h = ground (arith, pow-suc 2 w)
bit-complement (suc w) x (suc k) h =
    let half : (2 ^ suc w - 1 - x) / 2 ≡ 2 ^ w - 1 - x / 2 = omega (arith, pow-suc 2 w) in
    rw half (ground (arith, pow-suc 2 w, bit-complement w (x / 2) k))

-- `|` halves with its operands.
bit_or-half : (a b : ℕ) → bit_or a b / 2 ≡ bit_or (a / 2) (b / 2)
unfolding bit
bit_or-half a b = bit_ext _ _ λ k. bit-or a b (suc k) ∙ sym (bit-or (a / 2) (b / 2) k)

-- `|` of a low part and of a multiple of 2 ^ k is a sum.
pub bit_or-add : (k q r : ℕ) → r < 2 ^ k → bit_or r (q * 2 ^ k) ≡ r + q * 2 ^ k
unfolding bit
bit_or-add zero q r h =
    let e : r ≡ 0 = omega arith in
    rw e (bit_ext _ _ λ k. ground (arith, bit-or 0 (q * 1) k, bit-zero k))
bit_or-add (suc k) q r h =
    let double : q * 2 ^ suc k ≡ q * 2 ^ k * 2 =
      omega (arith, ap (λ (t : ℕ). q * t) (pow-suc 2 k)) in
    let upper : q * 2 ^ k * 2 / 2 ≡ q * 2 ^ k = omega arith in
    let half : bit_or r (q * 2 ^ k * 2) / 2 ≡ r / 2 + q * 2 ^ k =
      bit_or-half r (q * 2 ^ k * 2)
      ∙ rw upper (bit_or-add k q (r / 2) (omega (arith, pow-suc 2 k))) in
    let low : bit_or r (q * 2 ^ k * 2) % 2 ≡ max (r % 2) (q * 2 ^ k * 2 % 2) =
      bit-or r (q * 2 ^ k * 2) 0 in
    rw double (omega (arith, half, low))

pub pow-add : (a b : ℕ) → 2 ^ (a + b) ≡ 2 ^ a * 2 ^ b
pow-add zero b = let e : 0 + b ≡ b = omega arith in rw e (omega arith)
pow-add (suc a) b =
    let e : suc a + b ≡ suc (a + b) = omega arith in
    rw e (
      omega (
        arith,
        pow-suc 2 (a + b),
        pow-suc 2 a,
        pow-add a b,
        ap (λ (t : ℕ). t * 2 ^ b) (pow-suc 2 a),
        mul_assoc (2 ^ a) 2 (2 ^ b),
        mul_comm 2 (2 ^ b),
      ))

-- A number with no digit from `w` on is below 2 ^ w.
pub lt-pow_of_bits : (w x : ℕ) → ((k : ℕ) → w ≤ k → bit x k ≡ 0) → x < 2 ^ w
lt-pow_of_bits w x h =
    let same : x % 2 ^ w ≡ x = bit_ext _ _ λ k. ground (arith, bit-mod x w k, h k) in
    omega (arith, mod-lt x {m = 2 ^ w} (two_pow-pos w))

pub bit_of_lt : (w x k : ℕ) → x < 2 ^ w → w ≤ k → bit x k ≡ 0
bit_of_lt w x k h le = ground (arith, bit-mod x w k, mod-eq_of_lt h)

-- The digits of a power, and the test of a single digit.
pub bit-pow : (n k : ℕ) → bit (2 ^ n) k ≡ (if k == n then 1 else 0)
unfolding bit
bit-pow zero zero = refl
bit-pow zero (suc k) = ground (arith, bit-zero k)
bit-pow (suc n) zero = ground (arith, pow-suc 2 n)
bit-pow (suc n) (suc k) =
    let half : 2 ^ suc n / 2 ≡ 2 ^ n = omega (arith, pow-suc 2 n) in
    rw half (ground (arith, bit-pow n k))

pub bit-cases : (x k : ℕ) → (bit x k ≡ 0) ⊎ (bit x k ≡ 1)
bit-cases x k = omega (arith, bit-le-one x k)

pub bit_and-pow : (x n : ℕ) → bit_and x (2 ^ n) ≡ bit x n * 2 ^ n
bit_and-pow x n = bit_ext _ _ λ k. elim (bit-cases x n) [
  | inl e ↦
      let none_left : bit x n * 2 ^ n ≡ 0 = ground arith in
      rw none_left (ground (arith, bit-and x (2 ^ n) k, bit-pow n k, bit-zero k))
  | inr e ↦
      let one : bit x n * 2 ^ n ≡ 2 ^ n = rw e (omega arith) in
      rw one (ground (arith, bit-and x (2 ^ n) k, bit-pow n k, bit-le-one x k))
]
