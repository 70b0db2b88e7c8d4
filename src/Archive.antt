-- ===== src/Archive.antt =====
-- base/serialization.hpp and base/serialization.tpp: reading from and writing to byte archives.
-- An output archive only grows, so a serialize function is the bytes that it appends.
mod Defs
mod Integers
mod RoundTrip
unfoldable pub use Defs.*
pub use Integers.*
pub use RoundTrip.*
