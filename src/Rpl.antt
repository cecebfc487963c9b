-- ===== src/Rpl.antt =====
-- The reader of logs and snapshots under beerrpl.
mod Read
pub mod Marker
pub mod Records
mod Open
pub mod Whole
pub mod Opened
mod Tests
unfoldable pub use Read.*
unfoldable pub use Open.*
