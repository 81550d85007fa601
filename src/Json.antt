-- ===== src/Json.antt =====
-- src/io/inkling_json.c: the JSON reader. The children model its parts from the bytes up; the
-- proofs stand in modules named for what they prove.
pub mod Text
pub mod Value
pub mod Utf8
pub mod Strings
pub mod Numbers
pub mod Grow
pub mod Parse
pub mod Ensures
pub mod Escapes
pub mod Texts
pub mod Grammar
pub mod Room
pub mod Valid
pub mod Sound
pub mod Access
pub mod Integers
pub mod Lookup
pub mod Capacity
pub mod Encoding
mod Tests
pub mod Buffer
