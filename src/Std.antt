-- ===== src/Std.antt =====
-- What the sources use of Go's standard library: package strings, strconv and unicode/utf8.
pub mod Strings
pub mod Strconv
pub mod Utf8
pub mod Map
