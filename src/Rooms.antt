-- ===== src/Rooms.antt =====
-- services/discussion-service/src/rooms/rooms.service.ts: rooms, their members and who may post.
mod Permission
mod Access
mod Members
mod Govern
mod Create
pub mod Checks
pub mod Posting
pub mod Owners
pub mod Lifecycle
unfoldable pub use Permission.*
unfoldable pub use Access.*
unfoldable pub use Members.*
unfoldable pub use Govern.*
unfoldable pub use Create.*
