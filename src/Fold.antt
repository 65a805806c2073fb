-- ===== src/Fold.antt =====
-- internal/router/anthropic.go: the fold of system turns into user turns.
mod Defs
unfoldable pub use Defs.*
mod Objects
mod Turns
mod Loop
mod Body
mod Bytes
pub mod Tests
pub use Objects.*
pub use Body.*
