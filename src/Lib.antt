-- ===== src/Lib.antt =====
-- Verification library of llama-chip, a supervisor for llama-server processes and a router in
-- front of them, with a hub at which machines find each other.
--
-- The parts of the program and the files that model them:
--   Config    internal/config/config.go: slots, defaults and the checks of a configuration
--   Models    internal/models/models.go: the shelf of models (Discover), Find and FindMMProj
--   Gguf      internal/gguf/gguf.go: the reader of the metadata of a model file
--   Backends  internal/backends: the builds on the disk, their names and versions, the choice of
--             one, the pull of a release and the extraction of its archive
--   Rig       internal/rig/rig.go: the running slots. Go keeps a slice of pointers and a map from
--             names to the same pointers; the model has a heap from numbers to instances, the
--             list of numbers and an association list, so that the aliasing is explicit.
--             The supervisor goroutine of an instance is a step relation (Rig.Supervise) that
--             runs beside the processes and the call that stops it
--   Hub       internal/hub: store.go (tokens, their file and the roster) and server.go (every
--             handler)
--   Fed       internal/fed/fed.go: the table of the models that peers serve, built from a hub's
--             roster or from polls, and the tokens sent to peers
--   HubClient internal/hubclient/hubclient.go: the heartbeat of a node, over any network, and the
--             wire that joins it with the handlers of Hub (HubClient.Wire)
--   Fold      internal/router/anthropic.go: the fold of system turns into user turns, and the
--             bytes that it writes (Fold.Bytes)
--   Router    internal/router/router.go: the choice of a target, the gate of the token, the
--             handlers that manage the rig, the views, the estimate of a context, and the mux that
--             puts them together over a node, which is its rig and its federation (Router.Mux);
--             the history of a node (Router.Life), and nodes that poll each other (Router.Peers)
--   Gpu       internal/gpu and internal/lms: the cards that nvidia-smi tells of, and where the two
--             programs are looked for
--   Command   cmd/llama-chip/main.go: the commands, and how `serve` makes a node of the parts
--   Trial     experiments/dgtrial/main.go: the trial of a model over the lines of a server
--   Base      what the parts share: Boolean tests on the native numbers, lists, texts,
--             association lists, sorting
-- A configuration is checked by Config and handed to Rig.new_rig; the rig takes models from
-- Models and builds from Backends; Fed.apply_roster takes the roster that the hub gives out; the
-- router asks the rig first and the federation second, and folds the body on its way.
-- Command.cmd_serve checks the configuration, makes the rig, binds the port, starts the supervisors
-- and makes the federation and the client of the hub; from there a node goes on by the turns of
-- Router.Life.
--
-- Go methods become functions with the Go name in snake_case that take the receiver first and
-- return the new state beside the answer; errors are constructors of one type per component.
-- Texts are lists of code points. A method that holds a lock for its whole body is one function;
-- the reports that the supervisor goroutines make are steps of their own (Rig.Steps), so that
-- they interleave with the calls in any order.
--
-- Loops over slices are structural recursion. The search for a free port runs on fuel one above
-- the number of ports in use, and Rig.Ports shows that this is enough.
-- The reader of GGUF values runs on fuel one above the number of bytes left, since every array
-- in an array takes bytes of its own, and Gguf.Ends shows that it never runs out.
--
-- Code that is not in the repository is a parameter: the parser of URLs, the file system behind
-- the shelf and the builds (fields of Rig.Defs.Env), SHA-256, the random secret and the clock
-- (the sections of Hub), the net package and net/http (Router.Defs.Host, Router.Mux.World), the
-- answers of peers (Fed.Polls.Net), the network and the disk of a pull (Backends.Fetch.Web and
-- DiskOf), the JSON package (Fold.Bytes.JsonPackage, Fold.Defs.Codec), and float64
-- (Router.Context.Floats, Trial.Protocol.Clock).
-- What is relied on is a named hypothesis of the theorem that needs it.
--
-- The supervisor of an instance runs beside one call of Unload or StopAll, and a process that is
-- killed has ended, as os.Process.Kill says. What a system call gives is left open: any step may
-- find any error, any exit and any answer.
--
-- Not modelled: files, sockets, the start of processes, signals and timers, logging, and the texts
-- that are only shown, which are input and output; the embedded page; main of cmd/llama-hub, which
-- only puts the parts of Hub together; the page of results of the trial; the calls of the lms
-- command (internal/lms); the attribute of a process that the kernel reaps
-- (internal/rig/reap_linux.go).
mod Base
pub mod Config
pub mod Models
pub mod Backends
pub mod Gguf
pub mod Gpu
pub mod HubClient
pub mod Rig
pub mod Fed
pub mod Fold
pub mod Router
pub mod Hub
pub mod Command
pub mod Trial
