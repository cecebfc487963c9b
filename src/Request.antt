-- ===== src/Request.antt =====
-- The requests of the protocol: beer/beer_proto_internal.h, the functions that write one request
-- each (beer/beer_ping.c, beer_select.c, beer_insert.c, beer_delete.c, beer_call.c, beer_update.c,
-- beer_auth.c), and the general request object of beer/beer_request.c.
pub mod Key
mod Common
mod Direct
mod Compile
pub mod Packet
pub mod Sent
pub mod Held
pub mod Writeout
pub mod Upsert
pub mod Routes
pub mod Id
pub mod Streams
pub mod Series
pub mod Auth
mod Tests
unfoldable pub use Common.*
unfoldable pub use Direct.*
unfoldable pub use Compile.*
