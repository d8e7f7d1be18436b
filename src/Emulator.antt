-- ===== src/Emulator.antt =====
-- The reference emulator of src/emulator: the shared tile bank, the architectural state, the
-- execution context, the reference executor with its trace records, and the comparison of traces.
pub mod TileKinds
pub mod SharedTile
pub mod State
pub mod Record
pub mod Executor
pub mod Compare
pub mod Context
