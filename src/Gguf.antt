-- ===== src/Gguf.antt =====
-- internal/gguf/gguf.go: the reader of the metadata at the head of a model file.
mod Defs
unfoldable pub use Defs.*
mod Ends
mod Kinds
mod Writing
mod RoundTrip
mod Header
pub mod Tests
