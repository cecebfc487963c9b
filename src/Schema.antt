-- ===== src/Schema.antt =====
-- The cache of spaces and indexes of a connection: beer/beer_schema.c.
mod Store
pub mod Spaces
pub mod Indexes
pub mod Loaded
pub mod Listed
mod Tests
unfoldable pub use Store.*
