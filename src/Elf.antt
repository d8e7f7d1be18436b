-- ===== src/Elf.antt =====
-- src/elf_loader.cpp: the reads of a file's bytes, and what a load can end in.
pub mod Headers
pub mod Load
pub mod Reads
pub mod Safety
pub mod Accept
mod Tests
use Prim.Native.Nat.{bit_or}
use Prim.Native.String.{String}
use linx_model.Base.{
  ℕ, zero, suc, ◌+◌, ◌-◌, ◌*◌, ◌%◌, ◌^◌, Bool, true, false, ◌&&◌, Option, none, some, List, [], ◌∷◌,
  ◌==◌, ltb, leb, if◌then◌else◌, length, get_elem?, take, drop, ◌≡◌, refl,
}

-- The texts of the `std::runtime_error`s, an overflow without its context.
pub data LoadError : Type 0 where
  truncated_u16 truncated_u32 truncated_u64 : LoadError
  overflow : LoadError
  not_an_elf_image : String → LoadError
  truncated_ident unsupported_class not_little_endian unsupported_type : LoadError
  truncated_elf64_header truncated_elf32_header : LoadError
  no_section_headers truncated_section_headers section_exceeds_file no_alloc_sections : LoadError
  no_program_headers truncated_program_headers segment_exceeds_file no_load_segments : LoadError

-- `undefined` is a read past the end of the span, which the language leaves undefined.
pub data Outcome {ℓ} (A : Type ℓ) : Type ℓ where
  returns : A → Outcome A
  throws : LoadError → Outcome A
  undefined : Outcome A

infixl 5 ◌>>=◌
abbrev pub ◌>>=◌ {ℓ κ} : {A : Type ℓ} {B : Type κ} → Outcome A → (A → Outcome B) → Outcome B
returns a >>= f = f a
throws e >>= f = throws e
undefined >>= f = undefined

pub >>=-eq-returns {ℓ κ} :
    {A : Type ℓ} {B : Type κ} (m : Outcome A) (f : A → Outcome B) {b : B}
    → (m >>= f) ≡ returns b
    → (a : A) × (m ≡ returns a) × (f a ≡ returns b)
>>=-eq-returns (returns a) f h = (a, refl, h)
>>=-eq-returns (throws e) f h = cc
>>=-eq-returns undefined f h = cc

-- `bytes[offset]`.
unfoldable pub byte_at : List ℕ → ℕ → Outcome ℕ
byte_at bytes offset = elim (get_elem? bytes offset) [ none ↦ undefined | some b ↦ returns b ]

-- The bytes from the `idx`-th on, each shifted to its place; an index is a `size_t` of 64 bits.
unfoldable pub gather_le : List ℕ → ℕ → ℕ → ℕ → ℕ → Outcome ℕ
unfolding byte_at
gather_le bytes offset value idx zero = returns value
gather_le bytes offset value idx (suc n) = byte_at bytes ((offset + idx) % 2 ^ 64) >>= λ b.
    gather_le bytes offset (bit_or value (b * 2 ^ (idx * 8))) (suc idx) n

-- `offset + n > bytes.size()`, in which the sum wraps.
unfoldable pub exceeds : List ℕ → ℕ → ℕ → Bool
exceeds bytes offset n = ltb (length bytes) ((offset + n) % 2 ^ 64)

unfoldable pub read_le : LoadError → ℕ → List ℕ → ℕ → Outcome ℕ
unfolding exceeds gather_le
read_le error n bytes offset =
    if exceeds bytes offset n then throws error else gather_le bytes offset 0 0 n

unfoldable pub read_le16 : List ℕ → ℕ → Outcome ℕ
unfolding read_le
read_le16 bytes offset = read_le truncated_u16 2 bytes offset

unfoldable pub read_le32 : List ℕ → ℕ → Outcome ℕ
unfolding read_le
read_le32 bytes offset = read_le truncated_u32 4 bytes offset

unfoldable pub read_le64 : List ℕ → ℕ → Outcome ℕ
unfolding read_le
read_le64 bytes offset = read_le truncated_u64 8 bytes offset

-- `NarrowCast<std::size_t>`.
unfoldable pub narrow_cast : ℕ → Outcome ℕ
narrow_cast value = if ltb (2 ^ 64 - 1) value then throws overflow else returns value

-- `assign(bytes.begin() + begin, bytes.begin() + (begin + size))`.
unfoldable pub copy_range : List ℕ → ℕ → ℕ → Outcome (List ℕ)
copy_range bytes begin size =
    let end = (begin + size) % 2 ^ 64 in
    if leb begin end && leb end (length bytes)
    then returns (take size (drop begin bytes))
    else undefined

-- The range of the file, once it was compared to its size.
unfoldable pub payload : LoadError → List ℕ → ℕ → ℕ → Outcome (List ℕ)
unfolding narrow_cast exceeds copy_range
payload error bytes file_offset file_size = narrow_cast file_offset >>= λ begin.
    narrow_cast file_size >>= λ size.
    if exceeds bytes begin size then throws error else copy_range bytes begin size

unfoldable pub equal : List ℕ → List ℕ → Bool
equal [] bytes = true
equal (m ∷ ms) [] = false
equal (m ∷ ms) (b ∷ bs) = m == b && equal ms bs

abbrev pub elf_magic : List ℕ
elf_magic = 0x7f ∷ 0x45 ∷ 0x4c ∷ 0x46 ∷ []

unfoldable pub is_elf_image : List ℕ → Bool
unfolding equal
is_elf_image bytes = leb 4 (length bytes) && equal elf_magic bytes
