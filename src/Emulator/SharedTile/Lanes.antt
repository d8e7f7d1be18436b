-- ===== src/Emulator/SharedTile/Lanes.antt =====
-- What the writing loop of `SharedTileBank::Write` (src/emulator/shared_tile.cpp) leaves in the
-- lanes and in the mask of written lanes.
use Prim.Native.Nat.{bit_or}
use linx_model.Base.{
  ℕ, zero, suc, ◌+◌, ◌-◌, ◌≤◌, ◌<◌, ◌^◌, ◌≡◌, inl, inr, sym, ap, max, Bool, ◌&&◌, List, [], ◌==◌,
  leb, ltb, if◌then◌else◌, length, length-set, get_elem?-set_self, get_elem?-set_ne, arith,
  Bool-cases,
}
use linx_model.Base.Bits.{bit, bit-or, bit-pow, bit_ext, bit-cases, bit_of_lt}
use linx_model.Emulator.SharedTile.{
  SharedTileDescriptor, SharedTileLane, SharedTileVersion, entry, no_descriptor, no_lane,
  pe_mask_bit, selects, write_lane, write_lanes,
}
use linx_model.Emulator.SharedTile.Checks.{selects-bit}

-- The version but for its lanes and its mask of written lanes.
pub record SameShape (v w : SharedTileVersion) : Type 0 where
  pub same_mask : v.allocation_mask ≡ w.allocation_mask
  pub same_capacity : v.per_pe_capacity ≡ w.per_pe_capacity
  pub same_bytes : v.allocated_bytes ≡ w.allocated_bytes
  pub same_dtype : v.dtype ≡ w.dtype
  pub same_count : length v.lanes ≡ length w.lanes

write_lane-SameShape :
    (v : SharedTileVersion) (mask : ℕ) (d : SharedTileDescriptor) (bytes : List ℕ) (pe : ℕ)
    → SameShape (write_lane v mask d bytes pe) v
unfolding write_lane
write_lane-SameShape v mask d bytes pe = elim (Bool-cases (selects mask pe)) [
  | inl on ↦ ground (arith, length-set v.lanes pe (record { descriptor = d; payload = bytes }))
  | inr off ↦ ground arith
]

-- Digit `k` of the mask of written lanes after one turn, and after the loop.
write_lane-bit :
    (v : SharedTileVersion) (mask : ℕ) (d : SharedTileDescriptor) (bytes : List ℕ) (pe k : ℕ)
    → bit (write_lane v mask d bytes pe).initialized_mask k
      ≡ max (bit v.initialized_mask k) (if k == 3 - pe then bit mask k else 0)
unfolding write_lane pe_mask_bit
write_lane-bit v mask d bytes pe k = elim (Bool-cases (selects mask pe)) [
  | inl on ↦ elim (Bool-cases (k == 3 - pe)) [
    | inl e ↦
        let same : k ≡ 3 - pe = ground arith in
        rw same (
          ground (
            arith,
            on,
            selects-bit mask pe,
            bit-or v.initialized_mask (2 ^ (3 - pe)) (3 - pe),
            bit-pow (3 - pe) (3 - pe),
            bit-cases v.initialized_mask (3 - pe),
          ))
    | inr ne ↦
        ground (arith, on, ne, bit-or v.initialized_mask (2 ^ (3 - pe)) k, bit-pow (3 - pe) k)
  ]
  | inr off ↦ elim (Bool-cases (k == 3 - pe)) [
    | inl e ↦
        let same : k ≡ 3 - pe = ground arith in
        rw same (ground (arith, off, selects-bit mask pe, bit-cases mask (3 - pe)))
    | inr ne ↦ ground (arith, off, ne)
  ]
]

-- The entry of a lane after one turn.
write_lane-entry :
    (v : SharedTileVersion) (mask : ℕ) (d : SharedTileDescriptor) (bytes : List ℕ) (pe i : ℕ)
    → i < length v.lanes
    → entry no_lane (write_lane v mask d bytes pe).lanes i ≡ (
        if i == pe && selects mask pe
        then record { descriptor = d; payload = bytes }
        else entry no_lane v.lanes i)
unfolding write_lane
write_lane-entry v mask d bytes pe i h = elim (Bool-cases (selects mask pe)) [
  | inl on ↦
      let new : SharedTileLane = record { descriptor = d; payload = bytes } in
      elim (Bool-cases (i == pe)) [
        | inl e ↦
            let same : i ≡ pe = ground arith in
            ground (arith, on, e, same, get_elem?-set_self v.lanes pe new (omega arith))
        | inr ne ↦ ground (arith, on, ne, get_elem?-set_ne v.lanes pe i new (λ e. ground arith))
      ]
  | inr off ↦ ground (arith, off)
]

abbrev from_to : ℕ → ℕ → ℕ → Bool
from_to pe n i = leb pe i && ltb i (pe + n)

module _ (mask : ℕ) (ds : List SharedTileDescriptor) (ps : List (List ℕ)) where
  abbrev pub lane_of : ℕ → SharedTileLane
  lane_of i = record { descriptor = entry no_descriptor ds i; payload = entry [] ps i }

  abbrev turn : SharedTileVersion → ℕ → SharedTileVersion
  turn v pe = write_lane v mask (entry no_descriptor ds pe) (entry [] ps pe) pe

  pub write_lanes-SameShape :
      (v : SharedTileVersion) (pe n : ℕ) → SameShape (write_lanes v mask ds ps pe n) v
  unfolding write_lanes
  write_lanes-SameShape v pe zero = ground arith
  write_lanes-SameShape v pe (suc n) =
      let here = write_lane-SameShape v mask (entry no_descriptor ds pe) (entry [] ps pe) pe in
      let rest = write_lanes-SameShape (turn v pe) (suc pe) n in ground (arith, here, rest)

  write_lanes-bit :
      (v : SharedTileVersion) (pe n k : ℕ)
      → pe + n ≤ 4
      → bit (write_lanes v mask ds ps pe n).initialized_mask k
        ≡ max (bit v.initialized_mask k) (if leb k 3 && from_to pe n (3 - k) then bit mask k else 0)
  unfolding write_lanes
  write_lanes-bit v pe zero k h = ground arith
  write_lanes-bit v pe (suc n) k h =
      let here = write_lane-bit v mask (entry no_descriptor ds pe) (entry [] ps pe) pe k in
      let rest = write_lanes-bit (turn v pe) (suc pe) n k (omega arith) in
      ground (arith, here, rest)

  pub write_lanes-entry :
      (v : SharedTileVersion) (pe n i : ℕ)
      → i < length v.lanes
      → entry no_lane (write_lanes v mask ds ps pe n).lanes i
        ≡ (if from_to pe n i && selects mask i then lane_of i else entry no_lane v.lanes i)
  unfolding write_lanes
  write_lanes-entry v pe zero i h = ground arith
  write_lanes-entry v pe (suc n) i h =
      let shape = write_lane-SameShape v mask (entry no_descriptor ds pe) (entry [] ps pe) pe in
      let here = write_lane-entry v mask (entry no_descriptor ds pe) (entry [] ps pe) pe i h in
      let rest = write_lanes-entry (turn v pe) (suc pe) n i (ground (arith, shape, h)) in
      elim (Bool-cases (i == pe)) [
        | inl e ↦
            let same : i ≡ pe = ground arith in
            let moved : lane_of pe ≡ lane_of i = ap lane_of (sym same) in
            ground (arith, here, rest, moved, e, same)
        | inr ne ↦ ground (arith, here, rest)
      ]

  -- The whole loop adds the mask to the mask of written lanes.
  pub write_lanes-initialized :
      (v : SharedTileVersion)
      → mask < 2 ^ 4
      → (write_lanes v mask ds ps 0 4).initialized_mask ≡ bit_or v.initialized_mask mask
  write_lanes-initialized v h = bit_ext _ _ λ k. ground (
    arith,
    write_lanes-bit v 0 4 k (omega arith),
    bit-or v.initialized_mask mask k,
    bit_of_lt 4 mask k h,
  )
