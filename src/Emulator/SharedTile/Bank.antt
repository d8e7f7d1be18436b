-- ===== src/Emulator/SharedTile/Bank.antt =====
-- The operations of the class `SharedTileBank`, and the two checks on tile operations, of
-- src/emulator/shared_tile.cpp.
use linx_model.Base.{
  ℕ, Bool, true, false, not, ◌&&◌, ◌||◌, Option, none, some, List, ◌==◌, leb, ltb, if◌then◌else◌,
  length, set,
}
use linx_model.Emulator.TileKinds.{
  TileBindingKind, TileOperandSpace, TileOperationKind, TileSharedUse,
}
use linx_model.Emulator.SharedTile.{
  SharedTileDescriptor, SharedTileLane, SharedTileVersion, SharedTileWriteStatus, copies, entry,
  no_lane, no_version, selects, minus_mask, capacity_bytes, check_lanes, allocate, write_lanes,
}

-- `Version`.
unfoldable pub version_at : List SharedTileVersion → ℕ → SharedTileVersion
version_at bank shared_id =
    if ltb shared_id (length bank) then entry no_version bank shared_id else no_version

-- `Write` on the version it found, from the test for an expansion on.
unfoldable pub write_version :
    SharedTileVersion
    → ℕ
    → ℕ
    → List SharedTileDescriptor
    → List (List ℕ)
    → SharedTileWriteStatus × SharedTileVersion
unfolding minus_mask check_lanes allocate write_lanes
write_version v pe_mask capacity ds ps =
    if not (v.allocation_mask == 0) && not (minus_mask pe_mask v.allocation_mask == 0)
    then (SharedTileWriteStatus.allocation_expansion, v)
    else elim (check_lanes v pe_mask capacity ds ps 0 4) [
      | some status ↦ (status, v)
      | none ↦ (
        SharedTileWriteStatus.applied,
        write_lanes (allocate v pe_mask capacity ds) pe_mask ds ps 0 4,
      )
    ]

unfoldable pub write :
    List SharedTileVersion
    → ℕ
    → ℕ
    → ℕ
    → List SharedTileDescriptor
    → List (List ℕ)
    → SharedTileWriteStatus × List SharedTileVersion
unfolding minus_mask capacity_bytes write_version
write bank shared_id pe_mask size_code ds ps =
    if leb (length bank) shared_id
    then (SharedTileWriteStatus.invalid_register, bank)
    else if not (minus_mask pe_mask 15 == 0)
    then (SharedTileWriteStatus.invalid_mask, bank)
    else if pe_mask == 0
    then (SharedTileWriteStatus.noop, bank)
    else elim (capacity_bytes size_code) [
      | none ↦ (SharedTileWriteStatus.invalid_size, bank)
      | some capacity ↦
          let r = write_version (entry no_version bank shared_id) pe_mask capacity ds ps in
          (r.0, set bank shared_id r.1)
    ]

-- The overload with one descriptor for all lanes.
unfoldable pub write_same :
    List SharedTileVersion
    → ℕ
    → ℕ
    → ℕ
    → SharedTileDescriptor
    → List (List ℕ)
    → SharedTileWriteStatus × List SharedTileVersion
unfolding write
write_same bank shared_id pe_mask size_code d ps =
    write bank shared_id pe_mask size_code (copies 4 d) ps

unfoldable pub read : List SharedTileVersion → ℕ → ℕ → Option SharedTileLane
unfolding selects
read bank shared_id pe_id =
    if leb (length bank) shared_id || leb 4 pe_id
    then none
    else let v = entry no_version bank shared_id in
      if not (selects v.initialized_mask pe_id) then none else some (entry no_lane v.lanes pe_id)

unfoldable pub binding_allows : TileBindingKind → TileOperandSpace → Bool
binding_allows TileBindingKind.bior TileOperandSpace.scalar_address = true
binding_allows TileBindingKind.biot TileOperandSpace.local = true
binding_allows TileBindingKind.bios TileOperandSpace.shared = true
binding_allows _ _ = false

unfoldable pub validate_shared_operation : TileOperationKind → TileSharedUse → ℕ → ℕ → Bool
unfolding minus_mask
validate_shared_operation operation shared_use shared_mask local_mask =
    if not (minus_mask shared_mask 15 == 0) || not (minus_mask local_mask 15 == 0)
    then false
    else if shared_mask == 0
    then true
    else elim operation [
      | TileOperationKind.tmov ↦ elim shared_use [
        | TileSharedUse.none ↦ false
        | _ ↦ shared_mask == local_mask
      ]
      | TileOperationKind.cube ↦ elim shared_use [
        | TileSharedUse.source ↦ shared_mask == 15
        | _ ↦ false
      ]
      | TileOperationKind.tgemv ↦ elim shared_use [ TileSharedUse.none ↦ true | _ ↦ false ]
    ]
