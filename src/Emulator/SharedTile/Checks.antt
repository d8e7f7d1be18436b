-- ===== src/Emulator/SharedTile/Checks.antt =====
-- What the checking loop of `SharedTileBank::Write` (src/emulator/shared_tile.cpp) lets pass.
use native.Mathlib.Nat.{mul-pos}
use linx_model.Base.{
  ℕ, zero, suc, ◌+◌, ◌*◌, ◌-◌, ◌≤◌, ◌<◌, ◌≡◌, ◌≢◌, ◌↔◌, ◌⊎◌, inl, inr, refl, sym, true, false,
  Option, none, some, List, [], ◌==◌, length, arith, Bool-cases, Option-cases,
}
use linx_model.Base.Bits.{bit, bit_and-pow, bit-cases, two_pow-pos}
use linx_model.Emulator.SharedTile.{
  SharedTileDescriptor, SharedTileVersion, SharedTileWriteStatus, entry, no_descriptor, no_lane,
  pe_mask_bit, selects, descriptor_valid, same_descriptor, check_lane, check_lanes,
}

-- A mask selects a lane exactly by its digit, the highest of the four for lane 0.
pub selects-bit : (mask pe : ℕ) → selects mask pe ≡ (bit mask (3 - pe) == 1)
unfolding selects pe_mask_bit
selects-bit mask pe = elim (bit-cases mask (3 - pe)) [
  | inl e ↦ ground (arith, bit_and-pow mask (3 - pe), e)
  | inr e ↦ ground (arith, bit_and-pow mask (3 - pe), e, two_pow-pos (3 - pe))
]

pub same_descriptor_iff : (d e : SharedTileDescriptor) → (same_descriptor d e ≡ true) ↔ (d ≡ e)
unfolding same_descriptor
same_descriptor_iff d e = ground arith

-- The descriptor's rectangle lies in the tile, which the capacity holds at four bits an element.
pub record IsSized (d : SharedTileDescriptor) (capacity : ℕ) : Type 0 where
  pub some_rows : 0 < d.rows
  pub some_cols : 0 < d.cols
  pub rows_fit : d.valid_rows ≤ d.rows
  pub cols_fit : d.valid_cols ≤ d.cols
  pub fits : d.rows * d.cols ≤ capacity * 2

pub descriptor_valid_iff :
    (d : SharedTileDescriptor) (capacity : ℕ)
    → (descriptor_valid d capacity ≡ true) ↔ IsSized d capacity
unfolding descriptor_valid
descriptor_valid_iff d capacity = ground (arith, mul-pos {m = d.rows} {n = d.cols})

-- What a selected lane has to meet: its descriptor, its bytes, the allocation's shape where the
-- version is allocated, and the lane's descriptor where the lane is written.
pub record LaneFits (v : SharedTileVersion) (capacity : ℕ) (d : SharedTileDescriptor)
    (bytes : List ℕ) (pe : ℕ) : Type 0 where
  pub sized : IsSized d capacity
  pub filled : length bytes ≡ capacity
  pub shaped : (v.allocation_mask ≡ 0) ⊎ ((v.per_pe_capacity ≡ capacity) × (v.dtype ≡ d.dtype))
  pub kept : (selects v.initialized_mask pe ≡ false) ⊎ ((entry no_lane v.lanes pe).descriptor ≡ d)

pub check_lane_iff :
    (v : SharedTileVersion) (mask capacity : ℕ) (d : SharedTileDescriptor) (bytes : List ℕ) (pe : ℕ)
    → selects mask pe ≡ true
    → (check_lane v mask capacity d bytes pe ≡ none) ↔ LaneFits v capacity d bytes pe
unfolding check_lane
check_lane_iff v mask capacity d bytes pe on = ground (
  arith,
  descriptor_valid_iff d capacity,
  same_descriptor_iff (entry no_lane v.lanes pe).descriptor d,
)

-- The lanes that a write of `mask` reaches among the `n` from `pe` on.
abbrev pub AllFit :
    SharedTileVersion → ℕ → ℕ → List SharedTileDescriptor → List (List ℕ) → ℕ → ℕ → Type 0
AllFit v mask capacity ds ps pe n =
    (i : ℕ)
    → pe ≤ i
    → i < pe + n
    → selects mask i ≡ true
    → LaneFits v capacity (entry no_descriptor ds i) (entry [] ps i) i

module _ (v : SharedTileVersion) (mask capacity : ℕ) (ds : List SharedTileDescriptor)
    (ps : List (List ℕ)) where
  abbrev check_at : ℕ → Option SharedTileWriteStatus
  check_at pe = check_lane v mask capacity (entry no_descriptor ds pe) (entry [] ps pe) pe

  unselected-check_lane : (pe : ℕ) → selects mask pe ≡ false → check_at pe ≡ none
  unfolding check_lane
  unselected-check_lane pe off = rw off refl

  pub check_lanes-AllFit :
      (pe n : ℕ) → check_lanes v mask capacity ds ps pe n ≡ none → AllFit v mask capacity ds ps pe n
  unfolding check_lanes
  check_lanes-AllFit pe zero h i le lt on = absurd (omega arith)
  check_lanes-AllFit pe (suc n) h i le lt on = elim (Option-cases (check_at pe)) [
    | inl e ↦
        let rest : check_lanes v mask capacity ds ps (suc pe) n ≡ none = ground (arith, h, e) in
        elim (Bool-cases (i == pe)) [
          | inl same ↦
              let here : i ≡ pe = ground arith in
              rw here ((check_lane_iff v mask capacity _ _ pe (rw (sym here) on)).0 e)
          | inr other ↦ check_lanes-AllFit (suc pe) n rest i (ground arith) (omega arith) on
        ]
    | inr (s, e) ↦ absurd (ground (arith, h, e))
  ]

  pub AllFit-check_lanes :
      (pe n : ℕ) → AllFit v mask capacity ds ps pe n → check_lanes v mask capacity ds ps pe n ≡ none
  unfolding check_lanes
  AllFit-check_lanes pe zero fits = refl
  AllFit-check_lanes pe (suc n) fits =
      let rest : check_lanes v mask capacity ds ps (suc pe) n ≡ none =
        AllFit-check_lanes (suc pe) n (λ i le lt on. fits i (omega arith) (omega arith) on) in
      let here : check_at pe ≡ none = elim (Bool-cases (selects mask pe)) [
        | inl on ↦
            (check_lane_iff v mask capacity _ _ pe on).1 (fits pe (omega arith) (omega arith) on)
        | inr off ↦ unselected-check_lane pe off
      ] in
      rw (here, check_lanes) rest

  -- The loop refuses with a status of its own, never with that of an applied write.
  pub check_lanes-refusal :
      (pe n : ℕ) (s : SharedTileWriteStatus)
      → check_lanes v mask capacity ds ps pe n ≡ some s
      → s ≢ SharedTileWriteStatus.applied
  unfolding check_lanes check_lane
  check_lanes-refusal pe zero s e = ground arith
  check_lanes-refusal pe (suc n) s e = ground (arith, check_lanes-refusal (suc pe) n s)
