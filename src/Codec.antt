-- ===== src/Codec.antt =====
-- The encodings and path functions of Go's standard library that the program uses.
pub mod Base64
pub mod BigEndian
pub mod Hexadecimal
pub mod Decimal
pub mod PosixPath
