-- ===== src/Emulator/SharedTile/Versions.antt =====
-- `SharedTileBank::Write` of src/emulator/shared_tile.cpp on one version: when it applies, and the
-- invariant of a version.
use linx_model.Base.{
  ℕ, zero, suc, ◌-◌, ◌*◌, ◌≤◌, ◌<◌, ◌/◌, ◌^◌, ◌≡◌, ◌≢◌, ◌⊎◌, inl, inr, refl, ap, Bool, true, false,
  not, ◌&&◌, ◌||◌, List, ◌==◌, if◌then◌else◌, length, arith, Bool-cases, Option-cases,
}
use linx_model.Base.Bits.{
  bit, bit-and, bit-or, bit-cases, bit-le-one, bit-complement, bit_ext, bit_of_lt, bit-zero,
}
use linx_model.Emulator.SharedTile.{
  SharedTileDescriptor, SharedTileVersion, SharedTileWriteStatus, entry, no_lane, selects,
  minus_mask, check_lanes, allocate, write_lanes, popcount,
}
use linx_model.Emulator.SharedTile.Bank.{write_version}
use linx_model.Emulator.SharedTile.Checks.{
  selects-bit, IsSized, AllFit, check_lanes-AllFit, AllFit-check_lanes, check_lanes-refusal,
}
use linx_model.Emulator.SharedTile.Lanes.{lane_of, write_lanes-entry, write_lanes-initialized}

-- Every lane of the one mask is a lane of the other.
abbrev pub IsWithin : ℕ → ℕ → Type 0
IsWithin a b = (k : ℕ) → bit a k ≤ bit b k

pub minus_mask-IsWithin : (a b : ℕ) → a < 2 ^ 8 → b < 2 ^ 8 → minus_mask a b ≡ 0 → IsWithin a b
unfolding minus_mask
minus_mask-IsWithin a b h g e k = ground (
  arith,
  bit-and a (2 ^ 8 - 1 - b) k,
  bit-complement 8 b k g,
  bit_of_lt 8 a k h,
  bit-zero k,
  bit-le-one a k,
  ap (λ (x : ℕ). bit x k) e,
)

pub IsWithin-minus_mask : (a b : ℕ) → a < 2 ^ 8 → b < 2 ^ 8 → IsWithin a b → minus_mask a b ≡ 0
unfolding minus_mask
IsWithin-minus_mask a b h g w = bit_ext _ _ λ k. ground (
  arith,
  bit-and a (2 ^ 8 - 1 - b) k,
  bit-complement 8 b k g,
  bit_of_lt 8 a k h,
  bit-zero k,
  bit-le-one b k,
  w k,
)

-- What `Write` asks of the version.
pub record Accepts (v : SharedTileVersion) (mask capacity : ℕ) (ds : List SharedTileDescriptor)
    (ps : List (List ℕ)) : Type 0 where
  pub inside : (v.allocation_mask ≡ 0) ⊎ IsWithin mask v.allocation_mask
  pub fitting : AllFit v mask capacity ds ps 0 4

pub record VersionIsValid (v : SharedTileVersion) : Type 0 where
  pub four_lanes : length v.lanes ≡ 4
  pub narrow : v.allocation_mask < 2 ^ 4
  pub within : IsWithin v.initialized_mask v.allocation_mask
  pub sized :
      (v.allocation_mask ≡ 0)
      ⊎ ((v.per_pe_capacity ≤ 2 ^ 18)
          × (v.allocated_bytes ≡ v.per_pe_capacity * popcount 8 v.allocation_mask))
  pub filled :
      (i : ℕ)
      → i < 4
      → selects v.initialized_mask i ≡ true
      → IsSized (entry no_lane v.lanes i).descriptor v.per_pe_capacity
        × (length (entry no_lane v.lanes i).payload ≡ v.per_pe_capacity)

pub popcount_le : (n x : ℕ) → popcount n x ≤ n
unfolding popcount
popcount_le zero x = omega arith
popcount_le (suc n) x = omega (arith, popcount_le n (x / 2))

module _ (v : SharedTileVersion) (mask capacity : ℕ) (ds : List SharedTileDescriptor)
    (ps : List (List ℕ)) where
  abbrev pub allocated : SharedTileVersion
  allocated = allocate v mask capacity ds

  abbrev pub written : SharedTileVersion
  written = write_lanes allocated mask ds ps 0 4

module _ (v : SharedTileVersion) (mask capacity : ℕ) (ds : List SharedTileDescriptor)
    (ps : List (List ℕ)) (small : mask < 2 ^ 4) (valid : VersionIsValid v) where
  abbrev new : SharedTileVersion
  new = written v mask capacity ds ps

  abbrev expands : Bool
  expands = not (v.allocation_mask == 0) && not (minus_mask mask v.allocation_mask == 0)

  expands_inside : expands ≡ false → (v.allocation_mask ≡ 0) ⊎ IsWithin mask v.allocation_mask
  expands_inside e = elim (Bool-cases (v.allocation_mask == 0)) [
    | inl z ↦ inl (ground arith)
    | inr nz ↦ inr (
        minus_mask-IsWithin mask v.allocation_mask (omega arith) (omega (arith, valid.narrow))
          (ground arith))
  ]

  inside_expands : (v.allocation_mask ≡ 0) ⊎ IsWithin mask v.allocation_mask → expands ≡ false
  inside_expands (inl z) = ground arith
  inside_expands (inr w) =
      let e =
        IsWithin-minus_mask mask v.allocation_mask (omega arith) (omega (arith, valid.narrow)) w in
      ground (arith, e)

  -- On a valid version, either the write is accepted and applied, or it is not accepted, has
  -- another status, and leaves the version alone.
  pub write_version-cases :
      (Accepts v mask capacity ds ps
        × (write_version v mask capacity ds ps ≡ (SharedTileWriteStatus.applied, new)))
      ⊎ ((¬ Accepts v mask capacity ds ps)
          × ((write_version v mask capacity ds ps).0 ≢ SharedTileWriteStatus.applied)
          × ((write_version v mask capacity ds ps).1 ≡ v))
  unfolding write_version
  write_version-cases = elim (Bool-cases expands) [
    | inl out ↦ inr (
      λ acc. absurd (ground (arith, inside_expands acc.inside, out)),
      ground (arith, out),
      ground (arith, out),
    )
    | inr in_mask ↦ elim (Option-cases (check_lanes v mask capacity ds ps 0 4)) [
      | inl e ↦ inl (
        record {
          inside = expands_inside in_mask;
          fitting = check_lanes-AllFit v mask capacity ds ps 0 4 e;
        },
        rw (in_mask, e) refl,
      )
      | inr (s, e) ↦ inr (
        λ acc. absurd (ground (arith, AllFit-check_lanes v mask capacity ds ps 0 4 acc.fitting, e)),
        ground (arith, in_mask, e, check_lanes-refusal v mask capacity ds ps 0 4 s e),
        ground (arith, in_mask, e),
      )
    ]
  ]

  -- The lanes that count as written after the loop.
  pub written-selects :
      (i : ℕ)
      → i < 4
      → selects new.initialized_mask i ≡ (selects mask i || selects v.initialized_mask i)
  unfolding allocate
  written-selects i lt =
      let added = write_lanes-initialized mask ds ps (allocated v mask capacity ds ps) small in
      ground (
        arith,
        added,
        selects-bit mask i,
        selects-bit v.initialized_mask i,
        selects-bit new.initialized_mask i,
        ap (λ (x : ℕ). bit x (3 - i)) added,
        bit-or v.initialized_mask mask (3 - i),
        bit-cases v.initialized_mask (3 - i),
        bit-cases mask (3 - i),
      )

  pub written-entry :
      (i : ℕ)
      → i < 4
      → entry no_lane new.lanes i
        ≡ (if selects mask i then lane_of mask ds ps i else entry no_lane v.lanes i)
  unfolding allocate
  written-entry i lt = ground (
    arith,
    write_lanes-entry mask ds ps (allocated v mask capacity ds ps) 0 4 i,
    valid.four_lanes,
  )
