-- ===== src/Kernels.antt =====
-- src/core/inkling_math.c: the selection of the largest values, and the convolution.
pub mod Topk
pub mod Ranked
pub mod Largest
pub mod Convolution
pub mod Windows
mod Tests
