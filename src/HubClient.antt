-- ===== src/HubClient.antt =====
-- internal/hubclient/hubclient.go: the heartbeat of a node into the hub.
mod Defs
mod Wire
mod Beats
mod Together
mod Discovery
mod Tests
unfoldable pub use Defs.*
