-- ===== src/Fed.antt =====
-- internal/fed/fed.go: the map of the models that peers serve, from a hub's roster or from polls.
mod Defs
mod Setup
mod Polls
mod Routes
mod Keys
mod Known
mod Sound
mod Resolve
mod Tokens
pub mod Tests
unfoldable pub use Defs.*
unfoldable pub use Polls.*
unfoldable pub use Setup.*
pub use Tokens.*
pub use Known.*
pub use Sound.*
pub use Keys.*
pub use Resolve.*
