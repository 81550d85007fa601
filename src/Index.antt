-- ===== src/Index.antt =====
-- src/io/inkling_index.c: the catalogue of tensors, an open-addressing hash table over their names.
pub mod Table
pub mod Load
pub mod Bind
pub mod Probe
pub mod Placed
pub mod Loaded
pub mod Numbered
pub mod Published
mod Tests
