-- ===== src/Emulator/Context/Words.antt =====
-- Words in the memory of src/emulator/execution_context.cpp: `Write32`, `Write64` and their reads.
use Prim.Native.Nat.{bit_or}
use linx_model.Base.{
  ℕ, zero, suc, ◌+◌, ◌-◌, ◌*◌, ◌/◌, ◌%◌, ◌^◌, ◌≤◌, ◌<◌, ◌≡◌, ◌≢◌, refl, ap, some, ◌==◌, arith,
  Bool-cases, ltb, inl, inr,
}
use linx_model.Base.Bits.{bit, bit_ext, bit-or, bit-mod, bit-shl, bit-shr}
use linx_model.Emulator.Context.{Memory, address_at, store, write_bytes, read_bytes}

-- A write leaves the bytes at other addresses.
pub write_bytes-frame :
    (m : Memory) (addr value idx n b : ℕ)
    → ((i : ℕ) → idx ≤ i → i < idx + n → b ≢ address_at addr i)
    → write_bytes m addr value idx n b ≡ m b
unfolding write_bytes store
write_bytes-frame m addr value idx zero b other = refl
write_bytes-frame m addr value idx (suc n) b other =
    let next = store m (address_at addr idx) (value / 2 ^ (idx * 8) % 2 ^ 8) in
    let rest =
      write_bytes-frame next addr value (suc idx) n b
        λ i le lt. other i (omega arith) (omega arith) in
    ground (arith, rest, other idx (omega arith) (omega arith))

-- The bytes that a write of up to eight of them leaves.
write_bytes-byte :
    (m : Memory) (addr value idx n i : ℕ)
    → idx ≤ i
    → i < idx + n
    → idx + n ≤ 8
    → write_bytes m addr value idx n (address_at addr i) ≡ some (value / 2 ^ (i * 8) % 2 ^ 8)
unfolding write_bytes store
write_bytes-byte m addr value idx zero i le lt small = absurd (omega arith)
write_bytes-byte m addr value idx (suc n) i le lt small =
    let next = store m (address_at addr idx) (value / 2 ^ (idx * 8) % 2 ^ 8) in
    elim (Bool-cases (i == idx)) [
      | inl e ↦
          let same : i ≡ idx = ground arith in
          let kept =
            write_bytes-frame next addr value (suc idx) n (address_at addr idx)
              λ j p q e. absurd (omega arith) in
          rw same (ground (arith, kept))
      | inr ne ↦
          write_bytes-byte next addr value (suc idx) n i (ground arith) (omega arith) (omega arith)
    ]

-- The byte at digit `k` joins the digits below it.
join-byte :
    (value k : ℕ) → bit_or (value % 2 ^ k) (value / 2 ^ k % 2 ^ 8 * 2 ^ k) ≡ value % 2 ^ (k + 8)
join-byte value k = bit_ext _ _ λ j. elim (Bool-cases (ltb j k)) [
  | inl low ↦ ground (
    arith,
    low,
    bit-or (value % 2 ^ k) (value / 2 ^ k % 2 ^ 8 * 2 ^ k) j,
    bit-mod value k j,
    bit-mod value (k + 8) j,
    bit-shl (value / 2 ^ k % 2 ^ 8) k j,
  )
  | inr high ↦
      let split : k + (j - k) ≡ j = ground arith in
      ground (
        arith,
        high,
        bit-or (value % 2 ^ k) (value / 2 ^ k % 2 ^ 8 * 2 ^ k) j,
        bit-mod value k j,
        bit-mod value (k + 8) j,
        bit-shl (value / 2 ^ k % 2 ^ 8) k j,
        bit-mod (value / 2 ^ k) 8 (j - k),
        bit-shr value k (j - k),
        ap (bit value) split,
      )
]

read_bytes-low :
    (m : Memory) (addr value idx n : ℕ)
    → ((i : ℕ) → idx ≤ i → i < idx + n → m (address_at addr i) ≡ some (value / 2 ^ (i * 8) % 2 ^ 8))
    → read_bytes m addr (value % 2 ^ (idx * 8)) idx n ≡ some (value % 2 ^ ((idx + n) * 8))
unfolding read_bytes
read_bytes-low m addr value idx zero bytes =
    let same : (idx + 0) * 8 ≡ idx * 8 = omega arith in rw same refl
read_bytes-low m addr value idx (suc n) bytes =
    let here : m (address_at addr idx) ≡ some (value / 2 ^ (idx * 8) % 2 ^ 8) =
      bytes idx (omega arith) (omega arith) in
    let next : idx * 8 + 8 ≡ suc idx * 8 = omega arith in
    let last : (idx + suc n) * 8 ≡ (suc idx + n) * 8 = omega arith in
    let joined = join-byte value (idx * 8) in
    let rest =
      read_bytes-low m addr value (suc idx) n (λ i le lt. bytes i (omega arith) (omega arith)) in
    rw (last, here, read_bytes, joined, next) rest

-- A word of `n` bytes, at most eight, that is written at an address reads back from there, cut to
-- its bytes: the memory is little-endian in both directions, and wraps at the top alike.
pub read_bytes-write_bytes :
    (m : Memory) (addr value n : ℕ)
    → n ≤ 8
    → read_bytes (write_bytes m addr value 0 n) addr 0 0 n ≡ some (value % 2 ^ (n * 8))
read_bytes-write_bytes m addr value n small =
    let one : value % 2 ^ 0 ≡ 0 = omega arith in
    let low =
      read_bytes-low (write_bytes m addr value 0 n) addr value 0 n
        λ i le lt. write_bytes-byte m addr value 0 n i le lt (omega arith) in
    let all : (0 + n) * 8 ≡ n * 8 = omega arith in ground (arith, one, all, low)
