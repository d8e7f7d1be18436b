-- ===== src/Emulator/SharedTile.antt =====
-- The shared tile bank of src/emulator/shared_tile.cpp, with its types of
-- include/linx/model/emulator/state.hpp. An array is a list of its fixed length, and an index out
-- of range, which the code never uses, reads the default entry.
pub mod Bank
pub mod Checks
pub mod Lanes
pub mod Versions
pub mod Keeps
pub mod Effects
pub mod Safety
mod Tests
use Prim.Native.Nat.{bit_and, bit_or}
use linx_model.Base.{
  ℕ, zero, suc, ◌+◌, ◌-◌, ◌*◌, ◌^◌, ◌%◌, ◌/◌, Bool, true, false, not, ◌||◌, ◌&&◌, Option, none,
  some, List, [], ◌∷◌, ◌==◌, leb, ltb, if◌then◌else◌, length, get_elem?, set,
}

pub record SharedTileDescriptor : Type 0 where
  pub dtype : ℕ
  pub valid_cols : ℕ
  pub valid_rows : ℕ
  pub cols : ℕ
  pub rows : ℕ

pub record SharedTileLane : Type 0 where
  pub descriptor : SharedTileDescriptor
  pub payload : List ℕ

pub record SharedTileVersion : Type 0 where
  pub lanes : List SharedTileLane
  pub per_pe_capacity : ℕ
  pub allocated_bytes : ℕ
  pub dtype : ℕ
  pub allocation_mask : ℕ
  pub initialized_mask : ℕ

pub data SharedTileWriteStatus : Type 0 where
  applied noop invalid_register invalid_mask invalid_size invalid_descriptor : SharedTileWriteStatus
  payload_size_mismatch allocation_expansion descriptor_mismatch : SharedTileWriteStatus

-- `std::array`: `n` copies of an entry, and the entry at an index.
abbrev pub copies {ℓ} : {A : Type ℓ} → ℕ → A → List A
copies zero a = []
copies (suc n) a = a ∷ copies n a

abbrev pub entry {ℓ} : {A : Type ℓ} → A → List A → ℕ → A
entry a xs i = elim (get_elem? xs i) [ none ↦ a | some x ↦ x ]

abbrev pub no_descriptor : SharedTileDescriptor
no_descriptor = record { dtype = 0; valid_cols = 0; valid_rows = 0; cols = 0; rows = 0 }

abbrev pub no_lane : SharedTileLane
no_lane = record { descriptor = no_descriptor; payload = [] }

abbrev pub no_version : SharedTileVersion
no_version = record {
  lanes = copies 4 no_lane;
  per_pe_capacity = 0;
  allocated_bytes = 0;
  dtype = 0;
  allocation_mask = 0;
  initialized_mask = 0;
}

-- `Reset`, and a new bank.
unfoldable pub reset : List SharedTileVersion
reset = copies 64 no_version

-- `kValidPeMask` is 15: its complement in a byte, tested by division.
unfoldable pub pe_mask_bit : ℕ → ℕ
pe_mask_bit pe = 2 ^ (4 - 1 - pe)

unfoldable pub selects : ℕ → ℕ → Bool
unfolding pe_mask_bit
selects mask pe = not (bit_and mask (pe_mask_bit pe) == 0)

-- `a & ~b` on bytes.
unfoldable pub minus_mask : ℕ → ℕ → ℕ
minus_mask a b = bit_and a (2 ^ 8 - 1 - b)

unfoldable pub descriptor_valid : SharedTileDescriptor → ℕ → Bool
descriptor_valid d capacity =
    if d.rows == 0 || d.cols == 0 || ltb d.rows d.valid_rows || ltb d.cols d.valid_cols
    then false
    else not (d.rows * d.cols == 0) && leb (d.rows * d.cols) (capacity * 2)

-- `operator==` of the descriptor.
unfoldable pub same_descriptor : SharedTileDescriptor → SharedTileDescriptor → Bool
same_descriptor d e =
    d.dtype == e.dtype
    && d.valid_cols == e.valid_cols
    && d.valid_rows == e.valid_rows
    && d.cols == e.cols
    && d.rows == e.rows

unfoldable pub capacity_bytes : ℕ → Option ℕ
capacity_bytes size_code =
    if ltb size_code 1 || ltb 12 size_code then none else some (128 * 2 ^ (size_code - 1) % 2 ^ 32)

-- One turn of the checking loop of `Write`; `none` goes on.
unfoldable pub check_lane :
    SharedTileVersion → ℕ → ℕ → SharedTileDescriptor → List ℕ → ℕ → Option SharedTileWriteStatus
unfolding selects descriptor_valid same_descriptor
check_lane v pe_mask capacity d bytes pe =
    if not (selects pe_mask pe)
    then none
    else if not (descriptor_valid d capacity)
    then some SharedTileWriteStatus.invalid_descriptor
    else if not (length bytes == capacity)
    then some SharedTileWriteStatus.payload_size_mismatch
    else if not (v.allocation_mask == 0)
        && (not (v.per_pe_capacity == capacity) || not (v.dtype == d.dtype))
    then some SharedTileWriteStatus.descriptor_mismatch
    else if selects v.initialized_mask pe
        && not (same_descriptor (entry no_lane v.lanes pe).descriptor d)
    then some SharedTileWriteStatus.descriptor_mismatch
    else none

-- The loop for the `n` indices from `pe` on.
unfoldable pub check_lanes :
    SharedTileVersion
    → ℕ
    → ℕ
    → List SharedTileDescriptor
    → List (List ℕ)
    → ℕ
    → ℕ
    → Option SharedTileWriteStatus
unfolding check_lane
check_lanes v pe_mask capacity ds ps pe zero = none
check_lanes v pe_mask capacity ds ps pe (suc n) =
    elim (check_lane v pe_mask capacity (entry no_descriptor ds pe) (entry [] ps pe) pe) [
      | none ↦ check_lanes v pe_mask capacity ds ps (suc pe) n
      | some status ↦ some status
    ]

-- The type of the first selected descriptor.
unfoldable pub first_dtype : ℕ → ℕ → List SharedTileDescriptor → ℕ → ℕ → ℕ
unfolding selects
first_dtype old pe_mask ds pe zero = old
first_dtype old pe_mask ds pe (suc n) =
    if selects pe_mask pe
    then (entry no_descriptor ds pe).dtype
    else first_dtype old pe_mask ds (suc pe) n

-- `std::popcount` of a value of `n` bits.
unfoldable pub popcount : ℕ → ℕ → ℕ
popcount zero x = 0
popcount (suc n) x = x % 2 + popcount n (x / 2)

unfoldable pub allocate : SharedTileVersion → ℕ → ℕ → List SharedTileDescriptor → SharedTileVersion
unfolding first_dtype popcount
allocate v pe_mask capacity ds =
    if v.allocation_mask == 0
    then record v {
      allocation_mask = pe_mask;
      per_pe_capacity = capacity;
      allocated_bytes = capacity * popcount 8 pe_mask % 2 ^ 32;
      dtype = first_dtype v.dtype pe_mask ds 0 4;
    }
    else v

-- One turn of the writing loop, and the loop.
unfoldable pub write_lane :
    SharedTileVersion → ℕ → SharedTileDescriptor → List ℕ → ℕ → SharedTileVersion
unfolding selects pe_mask_bit
write_lane v pe_mask d bytes pe = if not (selects pe_mask pe) then v else record v {
  lanes = set v.lanes pe (record { descriptor = d; payload = bytes });
  initialized_mask = bit_or v.initialized_mask (pe_mask_bit pe);
}

unfoldable pub write_lanes :
    SharedTileVersion → ℕ → List SharedTileDescriptor → List (List ℕ) → ℕ → ℕ → SharedTileVersion
unfolding write_lane
write_lanes v pe_mask ds ps pe zero = v
write_lanes v pe_mask ds ps pe (suc n) =
    write_lanes (write_lane v pe_mask (entry no_descriptor ds pe) (entry [] ps pe) pe) pe_mask ds ps
      (suc pe) n
