-- ===== src/Reply.antt =====
-- The replies of the server: beer/beer_reply.c. A pointer into the buffer of the reply is the list of
-- the bytes from there to the end of the buffer.
mod Parse
pub mod RoundTrip
pub mod Whole
pub mod Failure
mod Tests
unfoldable pub use Parse.*
