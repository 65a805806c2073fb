-- ===== src/Command.antt =====
-- cmd/llama-chip/main.go: the commands, and how `serve` makes a node of its parts.
mod Defs
mod Lists
mod Announced
mod Serve
mod Tests
