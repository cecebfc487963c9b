-- ===== src/Tp.antt =====
-- The header-only request builder and reply parser: include/tp.h.
mod State
mod Requests
pub mod Draft
pub mod Steps
pub mod Reqid
pub mod Commands
pub mod Program
pub mod Runs
pub mod Padded
pub mod Growth
pub mod Faults
pub mod Format
pub mod Whole
pub mod Iterators
pub mod Agree
pub mod Response
pub mod Answer
pub mod Received
pub mod Walk
mod Tests
mod Reading
unfoldable pub use State.*
unfoldable pub use Requests.*
