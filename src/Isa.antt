-- ===== src/Isa.antt =====
-- include/linx/model/isa and src/isa: the instruction packet and the table-driven codec.
pub mod Enums
pub mod Desc
pub mod Names
pub mod Minst
pub mod Codec
pub mod Asm
pub mod Disasm
pub mod Dump
