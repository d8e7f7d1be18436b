-- ===== src/Isa/Codec.antt =====
-- src/isa/codec.cpp: the table-driven decoder and encoder, and what they promise.
pub mod Lookup
pub mod Word
pub mod Decode
pub mod Encode
pub mod Digits
pub mod Pieces
pub mod Values
pub mod Search
pub mod Outcome
pub mod Forms
pub mod RoundTrip
mod Tests
