-- ===== src/Protocol.antt =====
-- The data that nodes exchange: identities, log entries and commands (src/server.rs), messages
-- (src/codec.rs), and the envelopes between a server and its network task (src/server.rs).
-- Terms, ids and request numbers are unsigned words, kept as numbers; `i32` indices are integers.
use mini_raft.Prelude.{ℕ, ℤ, String, Bool, Option, List}

-- `NodeId(u64)` and `ClientId(u32)`.
abbrev pub NodeId : Type 0
NodeId = ℕ

abbrev pub ClientId : Type 0
ClientId = ℕ

pub data LogCommand : Type 0 where
  set : String → String → LogCommand
  get : String → LogCommand
  delete : String → LogCommand

pub record LogEntry : Type 0 where
  pub term : ℕ
  pub command : LogCommand
  pub index : ℕ
  pub client_id : ℕ
  pub request_id : ℕ

pub record AppendEntries : Type 0 where
  pub term : ℕ
  pub leader_id : NodeId
  pub prev_log_index : ℤ
  pub prev_log_term : ℕ
  pub entries : List LogEntry
  pub leader_commit : ℤ

pub record AppendEntriesResponse : Type 0 where
  pub term : ℕ
  pub success : Bool

pub record RequestVote : Type 0 where
  pub term : ℕ
  pub candidate_id : NodeId
  pub last_log_index : ℤ
  pub last_log_term : ℕ

pub record RequestVoteResponse : Type 0 where
  pub term : ℕ
  pub vote_granted : Bool

pub record ClientRequest : Type 0 where
  pub command : LogCommand
  pub client_id : ℕ
  pub request_id : ℕ

pub record Hello : Type 0 where
  pub id : NodeId

pub record HelloClient : Type 0 where
  pub id : ClientId

pub data ClientResponse : Type 0 where
  get_success : ℕ → Option String → ClientResponse
  set_success : ℕ → ClientResponse
  delete_success : ℕ → Bool → ClientResponse
  key_not_found : ℕ → ClientResponse
  not_leader : ℕ → Option NodeId → ClientResponse
  internal_error : ℕ → String → ClientResponse

pub data Message : Type 0 where
  append_entries_type : AppendEntries → Message
  append_entries_response_type : AppendEntriesResponse → Message
  request_vote_type : RequestVote → Message
  request_vote_response_type : RequestVoteResponse → Message
  client_request_type : ClientRequest → Message
  client_response_type : ClientResponse → Message
  hello_type : Hello → Message
  hello_client_type : HelloClient → Message

-- `enum Id`: who is at the other end of a connection.
pub data RemoteId : Type 0 where
  client : ClientId → RemoteId
  peer : NodeId → RemoteId

pub data Destination : Type 0 where
  to_client : ClientId → Destination
  to_node : NodeId → Destination
  broadcast : Destination

pub record Outgoing : Type 0 where
  pub dest : Destination
  pub msg : Message

pub record Incoming : Type 0 where
  pub from : RemoteId
  pub msg : Message
