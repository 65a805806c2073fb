-- ===== src/Router.antt =====
-- internal/router/router.go: the choice of a target, the gate and the list of models.
mod Defs
unfoldable pub use Defs.*
mod Listing
mod Choice
pub mod Gate
mod Manage
mod Remote
pub mod Views
mod Overview
pub mod Context
mod Estimate
pub mod Mux
pub mod Entry
pub mod Life
mod Peers
pub mod Hops
pub mod Meeting
pub mod Tests
