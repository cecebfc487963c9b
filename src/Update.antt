-- ===== src/Update.antt =====
-- The list of operations of an update: the second half of beer/beer_update.c, over an object of
-- beer/beer_object.c.
mod Ops
pub mod Tuple
pub mod Built
mod Tests
unfoldable pub use Ops.*
