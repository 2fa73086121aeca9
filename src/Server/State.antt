-- ===== src/Server/State.antt =====
-- `Server`, `ServerState` and `RaftState` (src/server.rs).
use mini_raft.Prelude.{ℕ, ◌+◌, ℤ, negsuc, Option, none, List, [], replicate}
use mini_raft.Protocol.{NodeId, LogEntry, Outgoing}
use mini_raft.Config.{ServerConfig}

pub data RaftState : Type 0 where
  follower : RaftState
  -- votes_received
  candidate : ℕ → RaftState
  -- match_index, next_index
  leader : List ℤ → List ℕ → RaftState

-- The sending end of a channel, seen from the server: what has been sent, oldest first, and how
-- many more messages the other task takes before it drops its end. A send beyond that fails.
pub record Sender : Type 0 where
  pub sent : List Outgoing
  pub room : ℕ

pub record ServerState (S : Type 0) : Type 0 where
  pub state : RaftState
  pub state_machine : S
  pub voted_for : Option NodeId
  pub last_heartbeat : ℕ
  pub current_term : ℕ
  pub commit_index : ℤ
  pub last_applied : ℤ
  pub last_sent_index : List ℤ

-- The receiving end `from_network` is no field: what it yields is an argument of the loops.
pub record Server (S : Type 0) : Type 0 where
  pub id : NodeId
  pub inner : ServerState S
  pub open inner use *
  pub config : ServerConfig
  pub to_network : Sender
  pub log : List LogEntry

module _ {S : Type 0} where
  -- `ServerState::new`; `now` is `Instant::now()`.
  unfoldable pub new_state : S → ℕ → ℕ → ServerState S
  new_state state_machine num_peers now = record {
    state = follower;
    state_machine = state_machine;
    voted_for = none;
    last_heartbeat = now;
    current_term = 0;
    commit_index = negsuc 0;
    last_applied = negsuc 0;
    last_sent_index = replicate (num_peers + 1) (ℤ.pos 0);
  }

  -- `Server::new`.
  unfoldable pub new : NodeId → ServerConfig → S → Sender → ℕ → Server S
  unfolding new_state
  new id config state_machine to_network now = record {
    id = id;
    inner = new_state state_machine config.total_nodes now;
    config = config;
    to_network = to_network;
    log = [];
  }
