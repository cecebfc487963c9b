-- ===== src/Object.antt =====
-- The MsgPack builder of beer/beer_object.c over a memory stream: values are appended, and a stack
-- of frames counts what each open container holds.
mod State
mod Scalars
mod Containers
pub mod Frames
pub mod Values
pub mod Headers
pub mod Close
pub mod Opening
pub mod Closing
pub mod Program
pub mod Built
pub mod Nested
pub mod Build
mod Tests
unfoldable pub use State.*
unfoldable pub use Scalars.*
unfoldable pub use Containers.*
