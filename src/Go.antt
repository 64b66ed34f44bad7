-- ===== src/Go.antt =====
-- What the program uses of Go's standard library, over texts as lists of code points.
pub mod Expand
pub mod Strings
