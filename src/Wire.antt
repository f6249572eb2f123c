-- ===== src/Wire.antt =====
-- src/postgres/wire.ts: the PostgreSQL v3 frames.
pub mod Words
pub mod Frames
pub mod Oids
pub mod Decode
pub mod Encode
mod Tests
