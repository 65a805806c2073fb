-- ===== src/Models.antt =====
-- internal/models/models.go: the GGUF files found on disk, and how a handle names one of them.
mod Defs
mod Find
mod Projector
pub mod Tests
unfoldable pub use Defs.*
pub use Find.*
unfoldable pub use Projector.*
