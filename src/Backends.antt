-- ===== src/Backends.antt =====
-- internal/backends: the llama.cpp builds on disk, their versions, and the choice of one.
mod Defs
mod Versions
mod Disk
mod Choice
mod Names
mod Pull
mod Flat
mod Install
mod Again
mod Fetch
mod Frame
mod Tests
unfoldable pub use Defs.*
unfoldable pub use Versions.*
unfoldable pub use Pull.*
unfoldable pub use Disk.*
unfoldable pub use Install.*
