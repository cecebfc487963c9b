-- ===== src/Iter.antt =====
-- The iterators over the elements of an array and over the pairs of a map: beer/beer_iter.c. A pointer
-- into the data is the list of the bytes from there to the end.
mod Walk
pub mod Visits
pub mod Pairs
mod Tests
unfoldable pub use Walk.*
