-- ===== src/Elf/Reads.antt =====
-- Which reads of src/elf_loader.cpp stay inside the file's bytes.
use Prim.Native.Nat.{bit_or}
use Prim.Native.String.{String}
use linx_model.Base.{
  ℕ, zero, suc, ◌+◌, ◌*◌, ◌%◌, ◌^◌, ◌≤◌, ◌<◌, ◌≡◌, refl, Bool, true, false, not, ◌&&◌, List, [],
  ◌∷◌, ◌==◌, ltb, if◌then◌else◌, length, arith,
}
use linx_model.Elf.{
  LoadError, Outcome, returns, throws, undefined, ◌>>=◌, byte_at, gather_le, exceeds, read_le,
  read_le16, read_le32, read_le64, narrow_cast, copy_range, payload, is_elf_image,
}
use linx_model.Elf.Headers.{
  read_header, read_header64, read_header32, table_entry, read_section_header, read_program_header,
}

-- The outcome is not the undefined one.
abbrev pub Defined {ℓ} : {A : Type ℓ} → Outcome A → Type 0
Defined (returns a) = Unit
Defined (throws e) = Unit
Defined undefined = ⊥

pub Defined->>= {ℓ κ} :
    {A : Type ℓ} {B : Type κ} (m : Outcome A) (f : A → Outcome B)
    → Defined m
    → ((a : A) → m ≡ returns a → Defined (f a))
    → Defined (m >>= f)
Defined->>= (returns a) f d h = h a refl
Defined->>= (throws e) f d h = tt
Defined->>= undefined f d h = d

pub Defined-if {ℓ} :
    {A : Type ℓ} (b : Bool) (m n : Outcome A)
    → (b ≡ true → Defined m)
    → (b ≡ false → Defined n)
    → Defined (if b then m else n)
Defined-if true m n h k = h refl
Defined-if false m n h k = k refl

byte_at-Defined : (bytes : List ℕ) (i : ℕ) → i < length bytes → Defined (byte_at bytes i)
unfolding byte_at
byte_at-Defined [] i h = absurd (omega arith)
byte_at-Defined (b ∷ bs) zero h = tt
byte_at-Defined (b ∷ bs) (suc i) h = byte_at-Defined bs i (omega arith)

pub table_entry-at :
    (bytes : List ℕ) (error : LoadError) (off entsize index offset : ℕ)
    → table_entry error bytes off entsize index ≡ returns offset
    → offset ≡ (off + index * entsize) % 2 ^ 64
unfolding table_entry narrow_cast exceeds
table_entry-at bytes error off entsize index offset e = ground arith

module _ (bytes : List ℕ) (fits : length bytes < 2 ^ 64) where
  gather_le-Defined :
      (offset value idx n : ℕ)
      → offset + idx + n ≤ length bytes
      → Defined (gather_le bytes offset value idx n)
  unfolding gather_le
  gather_le-Defined offset value idx zero h = tt
  gather_le-Defined offset value idx (suc n) h =
      Defined->>= (byte_at bytes ((offset + idx) % 2 ^ 64)) _
        (byte_at-Defined bytes ((offset + idx) % 2 ^ 64) (omega arith))
        λ b e. gather_le-Defined offset (bit_or value (b * 2 ^ (idx * 8))) (suc idx) n (omega arith)

  read_le-Defined :
      (error : LoadError) (n offset : ℕ)
      → offset + n < 2 ^ 64
      → Defined (read_le error n bytes offset)
  unfolding read_le exceeds
  read_le-Defined error n offset h =
      Defined-if (exceeds bytes offset n) _ _ (λ e. tt)
        λ e. gather_le-Defined offset 0 0 n (ground arith)

  pub payload-Defined :
      (error : LoadError) (offset size : ℕ)
      → offset + size < 2 ^ 64
      → Defined (payload error bytes offset size)
  unfolding payload exceeds narrow_cast copy_range
  payload-Defined error offset size h = ground arith

  -- Reads at an offset far from the top of the address space.
  read_le16-Defined : (offset : ℕ) → offset + 2 < 2 ^ 64 → Defined (read_le16 bytes offset)
  unfolding read_le16
  read_le16-Defined offset h = read_le-Defined _ 2 offset h

  read_le32-Defined : (offset : ℕ) → offset + 4 < 2 ^ 64 → Defined (read_le32 bytes offset)
  unfolding read_le32
  read_le32-Defined offset h = read_le-Defined _ 4 offset h

  read_le64-Defined : (offset : ℕ) → offset + 8 < 2 ^ 64 → Defined (read_le64 bytes offset)
  unfolding read_le64
  read_le64-Defined offset h = read_le-Defined _ 8 offset h

  read_header64-Defined : (type : ℕ) → Defined (read_header64 bytes type)
  unfolding read_header64
  read_header64-Defined type =
      Defined-if (ltb (length bytes) 64) _ _ (λ e. tt)
        λ e. Defined->>= (read_le64 bytes 24) _ (read_le64-Defined 24 (omega arith)) λ a₁ e.
          Defined->>= (read_le64 bytes 32) _ (read_le64-Defined 32 (omega arith)) λ a₂ e.
            Defined->>= (read_le64 bytes 40) _ (read_le64-Defined 40 (omega arith)) λ a₃ e.
              Defined->>= (read_le16 bytes 54) _ (read_le16-Defined 54 (omega arith)) λ a₄ e.
                Defined->>= (read_le16 bytes 56) _ (read_le16-Defined 56 (omega arith)) λ a₅ e.
                  Defined->>= (read_le16 bytes 58) _ (read_le16-Defined 58 (omega arith)) λ a₆ e.
                    Defined->>= (read_le16 bytes 60) _ (read_le16-Defined 60 (omega arith))
                      λ a₇ e. tt

  read_header32-Defined : (type : ℕ) → Defined (read_header32 bytes type)
  unfolding read_header32
  read_header32-Defined type =
      Defined-if (ltb (length bytes) 52) _ _ (λ e. tt)
        λ e. Defined->>= (read_le32 bytes 24) _ (read_le32-Defined 24 (omega arith)) λ a₁ e.
          Defined->>= (read_le32 bytes 28) _ (read_le32-Defined 28 (omega arith)) λ a₂ e.
            Defined->>= (read_le32 bytes 32) _ (read_le32-Defined 32 (omega arith)) λ a₃ e.
              Defined->>= (read_le16 bytes 42) _ (read_le16-Defined 42 (omega arith)) λ a₄ e.
                Defined->>= (read_le16 bytes 44) _ (read_le16-Defined 44 (omega arith)) λ a₅ e.
                  Defined->>= (read_le16 bytes 46) _ (read_le16-Defined 46 (omega arith)) λ a₆ e.
                    Defined->>= (read_le16 bytes 48) _ (read_le16-Defined 48 (omega arith))
                      λ a₇ e. tt

  pub read_header-Defined : (path : String) → Defined (read_header bytes path)
  unfolding read_header
  read_header-Defined path =
      Defined-if (not (is_elf_image bytes)) _ _ (λ e. tt)
        λ e.
          Defined-if (ltb (length bytes) 16) _ _ (λ e. tt)
            λ long.
              Defined->>= (byte_at bytes 4) _ (byte_at-Defined bytes 4 (ground arith)) λ class e.
                Defined-if (not (class == 1) && not (class == 2)) _ _ (λ e. tt)
                  λ e.
                    Defined->>= (byte_at bytes 5) _ (byte_at-Defined bytes 5 (ground arith))
                      λ encoding e.
                        Defined-if (not (encoding == 1)) _ _ (λ e. tt)
                          λ e.
                            Defined->>= (read_le16 bytes 16) _ (read_le16-Defined 16 (omega arith))
                              λ type e.
                                Defined-if (not (type == 1) && not (type == 2) && not (type == 3)) _
                                  _ (λ e. tt)
                                  λ e.
                                    Defined-if (class == 2) _ _ (λ e. read_header64-Defined type)
                                      λ e. read_header32-Defined type

  pub table_entry-Defined :
      (error : LoadError) (off entsize index : ℕ)
      → Defined (table_entry error bytes off entsize index)
  unfolding table_entry narrow_cast
  table_entry-Defined error off entsize index = ground arith

  -- An entry that does not wrap lies in the file.
  pub table_entry-Inside :
      (error : LoadError) (off entsize index offset : ℕ)
      → (off + index * entsize) % 2 ^ 64 + entsize < 2 ^ 64
      → table_entry error bytes off entsize index ≡ returns offset
      → offset + entsize ≤ length bytes
  unfolding table_entry narrow_cast exceeds
  table_entry-Inside error off entsize index offset h e = ground arith

  pub read_program_header-Defined :
      (is_64 : Bool) (offset : ℕ)
      → offset + 64 < 2 ^ 64
      → Defined (read_program_header is_64 bytes offset)
  unfolding read_program_header
  read_program_header-Defined true offset h =
      Defined->>= (read_le32 bytes offset) _ (read_le32-Defined offset (omega arith)) λ a₁ e.
        Defined->>= (read_le32 bytes ((offset + 4) % 2 ^ 64)) _
          (read_le32-Defined ((offset + 4) % 2 ^ 64) (omega arith))
          λ a₂ e.
            Defined->>= (read_le64 bytes ((offset + 8) % 2 ^ 64)) _
              (read_le64-Defined ((offset + 8) % 2 ^ 64) (omega arith))
              λ a₃ e.
                Defined->>= (read_le64 bytes ((offset + 16) % 2 ^ 64)) _
                  (read_le64-Defined ((offset + 16) % 2 ^ 64) (omega arith))
                  λ a₄ e.
                    Defined->>= (read_le64 bytes ((offset + 32) % 2 ^ 64)) _
                      (read_le64-Defined ((offset + 32) % 2 ^ 64) (omega arith)) λ a₅ e. tt
  read_program_header-Defined false offset h =
      Defined->>= (read_le32 bytes offset) _ (read_le32-Defined offset (omega arith)) λ a₁ e.
        Defined->>= (read_le32 bytes ((offset + 4) % 2 ^ 64)) _
          (read_le32-Defined ((offset + 4) % 2 ^ 64) (omega arith))
          λ a₂ e.
            Defined->>= (read_le32 bytes ((offset + 8) % 2 ^ 64)) _
              (read_le32-Defined ((offset + 8) % 2 ^ 64) (omega arith))
              λ a₃ e.
                Defined->>= (read_le32 bytes ((offset + 16) % 2 ^ 64)) _
                  (read_le32-Defined ((offset + 16) % 2 ^ 64) (omega arith))
                  λ a₄ e.
                    Defined->>= (read_le32 bytes ((offset + 24) % 2 ^ 64)) _
                      (read_le32-Defined ((offset + 24) % 2 ^ 64) (omega arith)) λ a₅ e. tt

  pub read_section_header-Defined :
      (is_64 : Bool) (offset : ℕ)
      → offset + 64 < 2 ^ 64
      → Defined (read_section_header is_64 bytes offset)
  unfolding read_section_header
  read_section_header-Defined true offset h =
      Defined->>= (read_le32 bytes ((offset + 4) % 2 ^ 64)) _
        (read_le32-Defined ((offset + 4) % 2 ^ 64) (omega arith))
        λ a₁ e.
          Defined->>= (read_le64 bytes ((offset + 8) % 2 ^ 64)) _
            (read_le64-Defined ((offset + 8) % 2 ^ 64) (omega arith))
            λ a₂ e.
              Defined->>= (read_le64 bytes ((offset + 16) % 2 ^ 64)) _
                (read_le64-Defined ((offset + 16) % 2 ^ 64) (omega arith))
                λ a₃ e.
                  Defined->>= (read_le64 bytes ((offset + 24) % 2 ^ 64)) _
                    (read_le64-Defined ((offset + 24) % 2 ^ 64) (omega arith))
                    λ a₄ e.
                      Defined->>= (read_le64 bytes ((offset + 32) % 2 ^ 64)) _
                        (read_le64-Defined ((offset + 32) % 2 ^ 64) (omega arith)) λ a₅ e. tt
  read_section_header-Defined false offset h =
      Defined->>= (read_le32 bytes ((offset + 4) % 2 ^ 64)) _
        (read_le32-Defined ((offset + 4) % 2 ^ 64) (omega arith))
        λ a₁ e.
          Defined->>= (read_le32 bytes ((offset + 8) % 2 ^ 64)) _
            (read_le32-Defined ((offset + 8) % 2 ^ 64) (omega arith))
            λ a₂ e.
              Defined->>= (read_le32 bytes ((offset + 12) % 2 ^ 64)) _
                (read_le32-Defined ((offset + 12) % 2 ^ 64) (omega arith))
                λ a₃ e.
                  Defined->>= (read_le32 bytes ((offset + 16) % 2 ^ 64)) _
                    (read_le32-Defined ((offset + 16) % 2 ^ 64) (omega arith))
                    λ a₄ e.
                      Defined->>= (read_le32 bytes ((offset + 20) % 2 ^ 64)) _
                        (read_le32-Defined ((offset + 20) % 2 ^ 64) (omega arith)) λ a₅ e. tt
