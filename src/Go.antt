-- ===== src/Go.antt =====
-- The functions of Go's standard library that the program calls on text.
mod Strings
mod Cuts
unfoldable pub use Strings.*
unfoldable pub use Cuts.*
