-- ===== src/Lib.antt =====
-- A verification of mini_raft, a Raft consensus node in Rust.
--
-- The program. Each node runs one `Server` (src/server.rs), an event loop in one of three roles. The
-- network tasks (src/network.rs) hand it `Incoming` messages through a channel and take `Outgoing`
-- ones through another; the messages are framed as JSON (src/codec.rs). A leader appends the commands
-- of clients to its log, replicates the log to the followers, advances its commit index by majority
-- and applies what is committed to a key-value store (src/state_machine.rs). src/config.rs holds the
-- configuration of a node.
--
-- The files.
--   Prelude: numbers, lists as vectors, `i32` and the casts, shared by all.
--   Protocol: ids, log entries, commands, messages and envelopes (src/codec.rs, src/server.rs).
--   Config: the record `ServerConfig` and `peer_node_addresses` (src/config.rs).
--   StateMachine, StateMachine/Laws: the store's trait and its implementation (src/state_machine.rs).
--   Server/State, Server/Action: `Server`, `ServerState`, `RaftState`, and the monad of the handlers:
--     a handler takes the server and returns the new server with a value, an error, or a panic.
--   Server/Roles: `become_follower`, `become_candidate`, `become_leader`.
--   Server/Apply: `apply_latest_commited_logs`; Server/Apply/Replay is about its result.
--   Server/Append: `handle_append_entries` and what it calls; its children are about the merged log
--     (Merge, Stored, Kept, Piece), about whether an append fits the log (Fits), about the commit index
--     after it (Advance), and about the handler as a whole (Replies).
--   Server/Vote: requests and replies of an election; its children are about who gets a vote (Grant)
--     and who is elected (Election).
--   Server/Client: `handle_client_request` and `handle_set_command`.
--   Server/Replicate: `handle_append_entries_response`; its children are about the commit
--     rule (Quorum), the retry after a refusal (Backoff), a success (Success), what it commits
--     and applies (Finish, Commits), the answer to the client (Answers) and a reply from a node that is
--     not counted (Stranger).
--   Server/Loop: `recieve_rpc`, `follower`, `candidate`, `leader`, `run`.
--   Server/Loop/Wins: an election from the candidate's loop to the change of role.
--   Server/Steps: the server as a transition system, one constructor for each kind of write. Its
--     children take every handler and loop apart into such writes (Rules has the rules for the monad,
--     Ends the events that a round of `run` takes), so that an invariant is proved once for each write.
--   Server/Progress: what no run undoes. Server/Safety: lengths of vectors (Shape), the
--     log of a node that receives no entries (Growth) or pieces of one log only (Pieces), terms (Terms)
--     and where entries come from (Requests).
--   Cluster: nodes side by side; its children are about what each has heard so far (History), about what
--     holds of all of them (Safety), how a
--     command gets from a leader to a follower (Replication), how it gets committed (Commit), two
--     commands before a reply (InStep, Pipelined), two candidates of one term (Elections), a leader
--     that lags behind its voters (Overwrites, Lost), a follower of one source of entries (Following),
--     and nodes that hear each other through the network manager (Wire).
--   Server/Client's children are about what a new command comes to at the leader (Sent), when its
--     handler is dropped (Cut), and at a node without a log (Restart).
--   Codec: `encode` and `decode`; its children are about one frame (Frames) and a stream (Stream).
--   Network/Registry, Network/Dispatch, Network/Connect: the registry of connections, the dispatch of
--     the server's messages, and how a connection begins; Sends, Delivery, Registered, Retry and
--     Dialled below them are about their results. A hash map is an association list, and its keys
--     stand in it once, as std's do, where a theorem says that no peer is registered twice.
--   Network/Tasks, Network/Manager: the listener and the reader and writer of a connection, and the
--     manager; Delivers is about a connection from end to end, Network/EndToEnd about all between the
--     servers of two nodes.
--   Config/Load: `load` and `load_from` (src/config.rs), over the `config` crate as a parameter.
--   Startup, Startup/Main: `resolve_config_path`, and what `main` puts together (src/main.rs).
--   Tests and its children, and the Tests of Codec and Network: the theorems at concrete inputs, and
--     runs that follow the unit tests of src/server.rs.
--
-- Names follow the source: one function for each function, and helpers for its branches and loops.
-- A field of the source's `ServerState` is a field of `inner`.
--
-- Numbers. Unsigned words are natural numbers; `i32` indices are integers. Casts wrap as in Rust;
-- `+` and `-` on words are checked, as in the debug build that README.md asks for, and an overflow is
-- a panic, as are indexing past the end, `unwrap` on an error and `unreachable!`. After a panic the
-- task is gone, and the state beside it means nothing.
--
-- The environment. A channel to the network is what was sent and how many more messages will be
-- taken before the other end is dropped; a later send fails. What `tokio::select!` picks is a list of
-- events with their times: a message, a closed channel, the timer, or the timer while the handler of
-- a message waits at the full channel, which drops the handler (`cut`). The order in which the hash
-- map of the configuration yields the peers is the order of a list. A store is any implementation of
-- the trait; theorems about what is applied assume that its writes succeed, as those of the simple
-- store do.
--
-- `serde_json` is a pair of functions of which a stream needs only that they read back what they
-- wrote. What a socket yields, whether a connection is made and how long a writer task lives are
-- arguments of the network's operations.
--
-- Fuel. The `while` of `apply_latest_commited_logs` has a round for each index between the last
-- applied and the commit index, and one to leave by; `run` has one round more than there are events. A
-- loop that used up its fuel would end as `unfinished`, which is proved not to happen.
--
-- Nodes side by side. A cluster is a server for each number. One step of it is some writes of one node,
-- a whole run for example, which hears only messages that some node has sent so far or that come from
-- outside. A message may be heard by any node, at any later time, any number of times: what the
-- network does with destinations is left to the network's own theorems. In Cluster/History a node is
-- what `run` makes of the events that it has had from its start.
--
-- Not modelled: when a timer fires and its jitter (only that it does); logging; sockets, and in which
-- order the tasks of src/network.rs take their steps; how `main` spawns its tasks.
pub mod Prelude
pub mod StateMachine
pub mod Protocol
pub mod Codec
pub mod Config
pub mod Server
pub mod Network
pub mod Cluster
pub mod Startup
pub mod Tests
