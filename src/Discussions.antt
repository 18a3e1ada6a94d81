-- ===== src/Discussions.antt =====
-- services/discussion-service/src/discussions/discussions.service.ts: posts and their status.
mod Create
mod Edit
mod Status
unfoldable pub use Create.*
unfoldable pub use Edit.*
unfoldable pub use Status.*
