-- ===== src/Trial.antt =====
-- experiments/dgtrial/main.go: a trial of a model that is driven over the lines of a server.
mod Defs
mod Protocol
mod Stream
mod Tests
