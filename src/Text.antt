-- ===== src/Text.antt =====
-- Text as the list of its bytes, with the operations of the standard library that the program uses.
-- Bytes above 127 are ordinary bytes here: letters and white space are those of ASCII.
mod Base
mod Search
mod Lines
pub mod Places
pub mod Decimal
unfoldable pub use Base.*
unfoldable pub use Search.*
unfoldable pub use Lines.*
unfoldable pub use Decimal.*
