-- ===== src/Hub.antt =====
-- internal/hub: the coordination service's tokens, roster and HTTP surface.
mod Defs
mod Persist
mod Server
mod Tokens
mod Roster
mod Restart
mod Ledger
mod Kept
mod History
mod Access
mod Padded
mod Tests
unfoldable pub use Defs.*
unfoldable pub use Server.*
pub use Roster.{register-list_roster}
unfoldable pub use Persist.*
