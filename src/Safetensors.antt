-- ===== src/Safetensors.antt =====
-- src/io/inkling_safetensors.c: the header of a shard, and the tensors that it names.
pub mod Tensor
pub mod Header
pub mod Sizes
pub mod Cover
mod Tests
