-- ===== src/Emulator/TileKinds.antt =====
-- The kinds of tile bindings, operands and operations of include/linx/model/emulator/state.hpp.
pub data TileBindingKind : Type 0 where
  bior biot bios : TileBindingKind

pub data TileOperandSpace : Type 0 where
  scalar_address local shared : TileOperandSpace

pub data TileOperationKind : Type 0 where
  tmov cube tgemv : TileOperationKind

pub data TileSharedUse : Type 0 where
  none source destination : TileSharedUse
