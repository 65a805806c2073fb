-- ===== src/Config.antt =====
-- internal/config/config.go: slots, the whole configuration, its defaults and its checks.
-- Numbers that the file may give as negative are taken from 0 on.
mod Defs
mod Defaults
mod Validate
pub mod Tests
unfoldable pub use Defs.*
pub use Defaults.*
pub use Validate.*
