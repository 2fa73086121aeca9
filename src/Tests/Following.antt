-- ===== src/Tests/Following.antt =====
-- A follower that hears a leader's new entry twice (src/server.rs), at concrete nodes.
use mini_raft.Prelude.{refl, inl, inr, some, pos, negsuc, as_i32, [], ◌∷◌, List, replicate, arith}
use mini_raft.Protocol.{Message, append_entries_type, LogCommand, peer}
use mini_raft.StateMachine.{SimpleStateMachine, simple_state_machine, apply_log}
use mini_raft.Server.State.{Server, leader}
use mini_raft.Server.Action.{send}
use mini_raft.Server.Append.Piece.{Extends}
use mini_raft.Server.Loop.{Event, rpc, timer, run}
use mini_raft.Server.Safety.Pieces.{HasPieces}
use mini_raft.Cluster.{IsIn}
use mini_raft.Cluster.Following.{run-follows}
use mini_raft.Tests.{entry, node, one_entry}
use mini_raft.Tests.Runs.{asking}

-- Node 1 leads and has committed its one entry.
abbrev source : Server SimpleStateMachine
source = node (leader (replicate 6 (negsuc 0)) (replicate 6 1)) 1 (pos 0) (entry 1 0 ∷ [])

source-HasPieces : HasPieces source
source-HasPieces = record { indexed = λ _. (refl, tt); pieces = tt }

-- What it sends for the command of `asking`.
abbrev news : Message
news = append_entries_type (record {
  term = 1;
  leader_id = 1;
  prev_log_index = pos 0;
  prev_log_term = 1;
  entries =
      record {
        term = 1;
        command = LogCommand.set "key" "value";
        index = 1;
        client_id = 67;
        request_id = 68;
      }
      ∷ [];
  leader_commit = pos 0;
})

abbrev heard_twice : List Event
heard_twice =
    rpc 8 (some (record { from = peer 1; msg = news }))
    ∷ timer 9
    ∷ rpc 10 (some (record { from = peer 1; msg = news }))
    ∷ []

news-IsIn : IsIn news (run 0 asking source).1.to_network.sent
unfolding run send apply_log as_i32
news-IsIn = inr (inr (inl refl))

run-follows_example :
    Extends source.log (run 0 asking source).1.log
    × Extends one_entry.log (run 7 heard_twice one_entry).1.log
    × Extends (run 7 heard_twice one_entry).1.log (run 0 asking source).1.log
unfolding run send apply_log as_i32
run-follows_example =
    run-follows 0 7 asking heard_twice source one_entry (tt, tt) source-HasPieces (omega arith)
      ([], refl) (inl news-IsIn, (inl news-IsIn, tt))
