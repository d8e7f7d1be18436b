-- ===== src/Emulator/SharedTile/Tests.antt =====
-- A write to two lanes of a new bank, and the theorems on it.
use linx_model.Base.{ℕ, zero, suc, ◌-◌, ◌≡◌, ◌≢◌, ◌↔◌, refl, some, List, [], ◌∷◌, arith}
use linx_model.Base.Bits.{bit-zero}
use linx_model.Emulator.SharedTile.{
  SharedTileDescriptor, SharedTileWriteStatus, copies, entry, no_version, reset, selects,
}
use linx_model.Emulator.SharedTile.Bank.{write, read}
use linx_model.Emulator.SharedTile.Checks.{selects-bit}
use linx_model.Emulator.SharedTile.Lanes.{lane_of}
use linx_model.Emulator.SharedTile.Versions.{VersionIsValid}
use linx_model.Emulator.SharedTile.Effects.{BankIsValid, Writable, write-applied_iff}
use linx_model.Emulator.SharedTile.Safety.{Keeps, read-write, write-BankIsValid, write-Keeps}

abbrev tile : SharedTileDescriptor
tile = record { dtype = 5; valid_cols = 16; valid_rows = 8; cols = 16; rows = 8 }

abbrev tiles : List SharedTileDescriptor
tiles = copies 4 tile

abbrev bytes : List (List ℕ)
bytes = copies 128 7 ∷ [] ∷ [] ∷ copies 128 9 ∷ []

entry-copies : (n i : ℕ) → entry no_version (copies n no_version) i ≡ no_version
entry-copies zero i = refl
entry-copies (suc n) zero = refl
entry-copies (suc n) (suc i) = entry-copies n i

no_version-IsValid : VersionIsValid no_version
no_version-IsValid = record {
  four_lanes = refl;
  narrow = omega arith;
  within = λ k. omega arith;
  sized = ground arith;
  filled = λ i lt on. absurd (ground (arith, selects-bit 0 i, bit-zero (3 - i), on));
}

reset-IsValid : BankIsValid reset
unfolding reset
reset-IsValid = record { whole = refl; each = λ i known. rw (entry-copies 64 i) no_version-IsValid }

write-tiles : (write reset 3 9 1 tiles bytes).0 ≡ SharedTileWriteStatus.applied
unfolding write reset selects
write-tiles = refl

write-applied_iff_example :
    (((write reset 3 9 1 tiles bytes).0 ≡ SharedTileWriteStatus.applied)
      ↔ Writable reset 3 9 1 tiles bytes)
    × ((write reset 3 9 1 tiles bytes).0 ≢ SharedTileWriteStatus.applied
        → (write reset 3 9 1 tiles bytes).1 ≡ reset)
write-applied_iff_example = write-applied_iff reset 3 9 1 tiles bytes reset-IsValid (omega arith)

tiles-Writable : Writable reset 3 9 1 tiles bytes
tiles-Writable = write-applied_iff_example.0.0 write-tiles

read-write_example : read (write reset 3 9 1 tiles bytes).1 3 0 ≡ some (lane_of 9 tiles bytes 0)
unfolding selects
read-write_example =
    read-write reset 3 9 1 tiles bytes reset-IsValid (omega arith) tiles-Writable 3 0 (omega arith)
      (omega arith)

write-BankIsValid_example : BankIsValid (write reset 3 9 1 tiles bytes).1
write-BankIsValid_example = write-BankIsValid reset 3 9 1 tiles bytes reset-IsValid (omega arith)

write-Keeps_example :
    Keeps (entry no_version reset 3) (entry no_version (write reset 3 9 1 tiles bytes).1 3)
write-Keeps_example =
    write-Keeps reset 3 9 1 tiles bytes reset-IsValid (omega arith) 3 (omega arith)

-- A first write with two types is applied, and the same write again is refused.
abbrev mixed : List SharedTileDescriptor
mixed = tile ∷ tile ∷ tile ∷ record tile { dtype = 6 } ∷ []

mixed-write :
    ((write reset 3 9 1 mixed bytes).0 ≡ SharedTileWriteStatus.applied)
    × ((write (write reset 3 9 1 mixed bytes).1 3 9 1 mixed bytes).0
        ≡ SharedTileWriteStatus.descriptor_mismatch)
unfolding write reset selects
mixed-write = (refl, refl)
