-- ===== src/Net.antt =====
-- Connections: beer/beer_net.c and beer/beer_opt.c.
pub mod Options
mod State
pub mod Login
pub mod Replies
pub mod Unsent
unfoldable pub use State.*
mod Tests
