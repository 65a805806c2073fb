-- ===== src/Rig.antt =====
-- internal/rig/rig.go: the set of instances that a node runs, and the calls that change it.
mod Ring
mod Recent
mod Defs
mod Boot
mod Calls
mod Supervise
mod Upstream
mod Args
mod Shown
mod Backoff
mod Rank
mod Caught
mod Stopping
mod Entries
mod Registry
mod Load
mod Ports
mod Unload
mod Ensure
mod Profile
mod Shutdown
mod Hosted
mod Steps
mod Races
pub mod Tests
unfoldable pub use Defs.*
unfoldable pub use Boot.*
unfoldable pub use Calls.*
pub use Registry.*
pub use Steps.{
  Step, loads, unloads, unloads_all, applies, ensures, reports, Step-IsWf, new_rig-IsWf,
  apply_profile-IsWf, set_state-IsWf,
}
pub use Unload.{lookup-member}
pub use Shutdown.{stop_all-lem}
unfoldable pub use Args.*
