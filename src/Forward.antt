-- ===== src/Forward.antt =====
-- src/model/inkling_forward.c: the sequence of an incremental context, and the rows of keys and values
-- that a layer keeps. What a layer computes on floating-point numbers is a parameter.
pub mod Sequence
pub mod Window
pub mod Steps
pub mod Answering
pub mod Replay
pub mod Failure
pub mod Rows
mod Tests
