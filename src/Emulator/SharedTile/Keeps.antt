-- ===== src/Emulator/SharedTile/Keeps.antt =====
-- An accepted write of src/emulator/shared_tile.cpp keeps the invariant of a version.
use native.Mathlib.Nat.{mod-eq_of_lt, mul-le-mul}
use Prim.Native.Nat.{bit_or}
use linx_model.Base.{
  ℕ, ◌-◌, ◌*◌, ◌≤◌, ◌<◌, ◌^◌, ◌≡◌, inl, inr, ap, true, List, ◌==◌, if◌then◌else◌, length, arith,
  Bool-cases,
}
use linx_model.Base.Bits.{bit, bit-or, bit_ext, bit_of_lt, bit-zero, bit-cases}
use linx_model.Emulator.SharedTile.{
  SharedTileDescriptor, SharedTileVersion, entry, no_lane, selects, allocate, popcount,
}
use linx_model.Emulator.SharedTile.Checks.{selects-bit, IsSized}
use linx_model.Emulator.SharedTile.Lanes.{lane_of, write_lanes-SameShape, write_lanes-initialized}
use linx_model.Emulator.SharedTile.Versions.{
  IsWithin, Accepts, VersionIsValid, written, allocated, popcount_le, written-selects,
  written-entry,
}

-- A mask of the four lanes that is not empty selects a lane.
some_selected : (mask : ℕ) → 0 < mask → mask < 2 ^ 4 → (i : ℕ) × (i < 4) × (selects mask i ≡ true)
some_selected mask pos lt = elim (Bool-cases (selects mask 0)) [
  | inl a ↦ (0, omega arith, a)
  | inr a ↦ elim (Bool-cases (selects mask 1)) [
    | inl b ↦ (1, omega arith, b)
    | inr b ↦ elim (Bool-cases (selects mask 2)) [
      | inl c ↦ (2, omega arith, c)
      | inr c ↦ elim (Bool-cases (selects mask 3)) [
        | inl d ↦ (3, omega arith, d)
        | inr d ↦
            let empty : mask ≡ 0 = bit_ext mask 0 λ k. ground (
              arith,
              bit-zero k,
              bit_of_lt 4 mask k lt,
              bit-cases mask k,
              selects-bit mask (3 - k),
              a,
              b,
              c,
              d,
            ) in
            absurd (omega arith)
      ]
    ]
  ]
]

-- A number with a digit is not zero.
some_digit : (x k : ℕ) → 0 < bit x k → 0 < x
some_digit x k h = elim (Bool-cases (x == 0)) [
  | inl z ↦
      let none_left : x ≡ 0 = ground arith in
      let e = ap (λ (y : ℕ). bit y k) none_left in absurd (omega (arith, bit-zero k, e))
  | inr nz ↦ ground arith
]

module _ (v : SharedTileVersion) (mask capacity : ℕ) (ds : List SharedTileDescriptor)
    (ps : List (List ℕ)) (small : mask < 2 ^ 4) (valid : VersionIsValid v) (some_lane : 0 < mask)
    (bounded : capacity ≤ 2 ^ 18) (acc : Accepts v mask capacity ds ps) where
  abbrev after : SharedTileVersion
  after = written v mask capacity ds ps

  abbrev start : SharedTileVersion
  start = allocated v mask capacity ds ps

  -- What an accepted write keeps of an allocated version, and sets on a new one.
  pub mask_now :
      after.allocation_mask ≡ (if v.allocation_mask == 0 then mask else v.allocation_mask)
  unfolding allocate
  mask_now = ground (arith, write_lanes-SameShape mask ds ps start 0 4)

  pub capacity_now : after.per_pe_capacity ≡ capacity
  unfolding allocate
  capacity_now =
      let (i, lt, on) = some_selected mask some_lane small in
      let fits = acc.fitting i (omega arith) (omega arith) on in
      ground (arith, fits.shaped, write_lanes-SameShape mask ds ps start 0 4)

  pub bytes_now :
      after.allocated_bytes
      ≡ (if v.allocation_mask == 0 then capacity * popcount 8 mask else v.allocated_bytes)
  unfolding allocate
  bytes_now =
      let few = popcount_le 8 mask in
      let small_product : capacity * popcount 8 mask < 2 ^ 32 =
        omega (arith, mul-le-mul bounded few) in
      ground (arith, mod-eq_of_lt small_product, write_lanes-SameShape mask ds ps start 0 4)

  four_now : length after.lanes ≡ 4
  unfolding allocate
  four_now = ground (arith, valid.four_lanes, write_lanes-SameShape mask ds ps start 0 4)

  added_now : after.initialized_mask ≡ bit_or v.initialized_mask mask
  unfolding allocate
  added_now = ground (arith, write_lanes-initialized mask ds ps start small)

  -- An allocated version keeps its capacity and its type.
  pub kept_now :
      0 < v.allocation_mask → (after.per_pe_capacity ≡ v.per_pe_capacity) × (after.dtype ≡ v.dtype)
  unfolding allocate
  kept_now h = ground (arith, write_lanes-SameShape mask ds ps start 0 4)

  IsWithin-now : IsWithin after.initialized_mask after.allocation_mask
  IsWithin-now k =
      let added = ap (λ (x : ℕ). bit x k) added_now in
      elim (Bool-cases (v.allocation_mask == 0)) [
        | inl z ↦
            let zero_mask : v.allocation_mask ≡ 0 = ground arith in
            let empty = ap (λ (x : ℕ). bit x k) zero_mask in
            let now : after.allocation_mask ≡ mask = ground (arith, mask_now, z) in
            let digit = ap (λ (x : ℕ). bit x k) now in
            ground (
              arith,
              added,
              digit,
              empty,
              bit-zero k,
              valid.within k,
              bit-or v.initialized_mask mask k,
            )
        | inr nz ↦
            let inside : IsWithin mask v.allocation_mask = elim acc.inside [
              | inl z ↦ absurd (ground arith)
              | inr w ↦ w
            ] in
            let now : after.allocation_mask ≡ v.allocation_mask = ground (arith, mask_now, nz) in
            let digit = ap (λ (x : ℕ). bit x k) now in
            ground (arith, added, digit, inside k, valid.within k, bit-or v.initialized_mask mask k)
      ]

  sized_now :
      (after.per_pe_capacity ≤ 2 ^ 18)
      × (after.allocated_bytes ≡ after.per_pe_capacity * popcount 8 after.allocation_mask)
  sized_now = elim (Bool-cases (v.allocation_mask == 0)) [
    | inl z ↦
        let now : after.allocation_mask ≡ mask = ground (arith, mask_now, z) in
        let count = ap (λ (x : ℕ). capacity * popcount 8 x) now in
        rw capacity_now (ground (arith, bytes_now, z, count, bounded))
    | inr nz ↦
        let now : after.allocation_mask ≡ v.allocation_mask = ground (arith, mask_now, nz) in
        let count = ap (λ (x : ℕ). v.per_pe_capacity * popcount 8 x) now in
        let kept = kept_now (ground arith) in
        rw kept.0 (ground (arith, bytes_now, nz, count, valid.sized))
  ]

  filled_now :
      (i : ℕ)
      → i < 4
      → selects after.initialized_mask i ≡ true
      → IsSized (entry no_lane after.lanes i).descriptor after.per_pe_capacity
        × (length (entry no_lane after.lanes i).payload ≡ after.per_pe_capacity)
  filled_now i lt on =
      let e = written-entry v mask capacity ds ps small valid i lt in
      let s = written-selects v mask capacity ds ps small valid i lt in
      elim (Bool-cases (selects mask i)) [
        | inl here ↦
            let fits = acc.fitting i (omega arith) (omega arith) here in
            let lane : entry no_lane after.lanes i ≡ lane_of mask ds ps i =
              ground (arith, e, here) in
            rw (lane, capacity_now) (fits.sized, fits.filled)
        | inr off ↦
            let before : selects v.initialized_mask i ≡ true = ground (arith, s, on, off) in
            let lane : entry no_lane after.lanes i ≡ entry no_lane v.lanes i =
              ground (arith, e, off) in
            let kept = kept_now (
              ground (
                arith,
                before,
                selects-bit v.initialized_mask i,
                valid.within (3 - i),
                some_digit v.allocation_mask (3 - i),
              )) in
            rw (lane, kept.0) (valid.filled i lt before)
      ]

  -- An accepted write keeps the invariant.
  pub written-IsValid : VersionIsValid after
  written-IsValid = record {
    four_lanes = four_now;
    narrow = ground (arith, mask_now, valid.narrow);
    within = IsWithin-now;
    sized = inr sized_now;
    filled = filled_now;
  }
