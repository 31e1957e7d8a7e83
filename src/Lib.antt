-- ===== src/Lib.antt =====
-- Verification of puc, a terminal client with a canvas of turns.
--
-- The parts and the files that model them:
-- Base: Boolean tests on native numbers, lists under native lengths, association lists for
-- std::unordered_map, insertion sort for std::sort, bytes of std::string.
-- State: state/state.cpp. `State` has the registry (`AppState`, `register_subsystem_erased`),
-- `State.Topology` the build of the layers (`build_topology`), `State.Lifecycle` the operations
-- `initialize`, `start`, `stop` and `terminate` with their loops and rollbacks. A subsystem's
-- hooks are functions of the application and of a world of any type, so they can read, fail and
-- throw in any way. The modules below State.Lifecycle hold the proofs: of flags, loops and
-- layers, then State.Lifecycle.Registry and State.Lifecycle.Reentry on whole histories of calls;
-- State.Topology.Coverage follows the ids of the registry into the layers.
-- Graph: utils/execution_graph/dependency_graph.hpp, which State.Topology uses: nodes and edges
-- by name, and the layers by counting dependencies down. The rounds of the count are bounded by
-- the number of nodes and one more, since each round but the last takes a node away.
-- `Graph.Acyclic` says what the count answers, `Graph.Building` and `Graph.Validation` follow a
-- graph through its calls.
-- Trie: utils/containers/trie.hpp. Nodes stand in one list and name their children by index; a
-- child list is searched by a scan or, from nine children on, by halving. `Trie.Paths` says what
-- a well-formed trie is, `Trie.Contents` what insertion and erasure do to lookups,
-- `Trie.Stability` what an insertion does to indexes, `Trie.Completions` the list of sequences,
-- where the number of nodes bounds the depth.
-- Canvas.Address: canvas/turn/address.cpp, the dotted addresses of turns: parsing, printing and
-- their order. The text's length bounds the rounds of parsing; a number bounds the rounds of
-- printing it, since each round divides it.
-- Canvas.Turns: canvas/turn/turn_tree.cpp, the tree of turns over the trie. The encoding of
-- protobuf and the digest are parameters. `Canvas.Turns.Hashing` has `apply` and the hashes,
-- `Canvas.Turns.Log` the histories of calls, `Canvas.Turns.Rebuild` the `rebuild` with its
-- watermarks.
-- Hash: utils/hash/sha256.cpp and canvas/canvas_id.cpp, the text of digests and the marks of an
-- identity.
-- Decoder: puc-cli/tui/terminal/decoder.cpp, the helpers that decode scalar values, split the
-- fields of a sequence, read the codes of keys and bound the size of clipboard answers. The
-- number of fields bounds the rounds of the split.
-- Tui: puc-cli/tui/rendering/zbuf.cpp and puc-cli/tui/rendering/selection.cpp: the frames in
-- painting order, and the one selection. A frame's callbacks are parameters, with their
-- documented contract as a hypothesis where a theorem needs it.
-- Timer: utils/timer/deadline.hpp, the deadlines of polling loops. A caller passes the time.
-- Ipc.Framing: utils/ipc/framed_io.cpp, frames of a size and a payload. What the system answers
-- to each wait and transfer is a list of events, which bounds the loops; the theorems ask for a
-- transfer per byte at most.
-- Ipc.Name: the names of channels in utils/ipc/channel.cpp and the paths of
-- utils/ipc/channel_path.cpp. The text's length bounds the rounds of the check.
-- Ipc.Delivery: the bounded delivery of utils/ipc/channel.cpp. Each function is a region that
-- holds the mutex, and threads are sequences of regions in any order.
-- Utf8: utils/utf8/utf8.cpp, the validation of text, compared with the encoding of scalar
-- values. The text's length bounds the rounds.
--
-- Numbers of the width of std::size_t or std::uint64_t are natural numbers; the wrap or the
-- check for overflow is written out where the code counts up or down or converts text. Log lines
-- are left out, and so are mutexes: but for the delivery of channels, each operation holds its
-- own from start to end.
--
-- Not modelled: the datastore, which calls SQLite; terminal sessions, polling and file access,
-- which are system calls; generated messages; the copied terminal emulator; and the parts of the
-- terminal interface that only render. The presentation tree, the subscribers of channels and
-- the execution plan have no model yet.
pub mod Base
pub mod Graph
pub mod State
pub mod Canvas
pub mod Utf8
pub mod Tui
pub mod Trie
pub mod Timer
pub mod Decoder
pub mod Hash
pub mod Ipc
