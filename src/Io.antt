-- ===== src/Io.antt =====
-- Buffered socket input and output of a connection: beer/beer_io.c and beer/beer_iob.c, with the
-- fields of `struct beer_stream_net` (include/bee/beer_net.h) that they read and write.
-- The kernel and the user's callbacks are not part of the repository: a run is given the list of
-- their answers, one for each call, and the model stops as `blocked` where the list ends.
mod State
mod Send
mod Recv
pub mod Raw
pub mod Deliver
pub mod Vector
pub mod Receive
pub mod Rounds
pub mod Progress
pub mod Supply
pub mod Buffer
pub mod Session
pub mod Connect
pub mod Patience
pub mod Xbufmax
mod Tests
unfoldable pub use State.*
unfoldable pub use Send.*
unfoldable pub use Recv.*
