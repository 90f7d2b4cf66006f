-- ===== src/Maps.antt =====
-- The maps of the standard library as association lists.
mod Tree
mod Hash
unfoldable pub use Tree.*
unfoldable pub use Hash.*
