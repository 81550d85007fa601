-- ===== src/Packed.antt =====
-- src/model/inkling_packed.c: the packed trunk.
pub mod Sha
pub mod Streaming
pub mod Standard
pub mod Compression
pub mod Digest
pub mod File
pub mod Reads
pub mod Hashed
pub mod Table
pub mod Ranges
pub mod Search
pub mod Identity
pub mod Open
pub mod Opened
mod Tests
