-- ===== src/Std.antt =====
-- What the code uses of Rust's standard library: characters, text and paths.
pub mod Char
pub mod Str
pub mod FilePath
pub mod Float
pub mod Decimal
pub mod Hex
pub mod Utf8
