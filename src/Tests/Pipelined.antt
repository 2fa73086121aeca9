-- ===== src/Tests/Pipelined.antt =====
-- Two commands that a leader of three nodes takes before a reply, and a command whose handler is
-- dropped (src/server.rs), at concrete servers.
use mini_raft.Prelude.{◌≡◌, refl, true, inl, inr, pos, negsuc, [], ◌∷◌, ◌++◌, map, replicate, arith}
use mini_raft.Protocol.{LogEntry, NodeId, peer}
use mini_raft.Config.{ServerConfig}
use mini_raft.StateMachine.{SimpleStateMachine, simple_state_machine}
use mini_raft.Server.State.{Server, leader, follower}
use mini_raft.Server.Action.{ok}
use mini_raft.Server.Append.{handle_append_entries}
use mini_raft.Server.Append.Replies.{answer_to}
use mini_raft.Server.Apply.Replay.{replay}
use mini_raft.Server.Client.{handle_set_command}
use mini_raft.Server.Client.Sent.{TracksAll, notice, announced, command_entry, pushed}
use mini_raft.Server.Client.Cut.{noted, request, recieve_until_drops}
use mini_raft.Server.Loop.{recieve_until}
use mini_raft.Server.Replicate.{handle_append_entries_response}
use mini_raft.Server.Replicate.Finish.{HasApplied}
use mini_raft.Cluster.InStep.{IsInStep}
use mini_raft.Cluster.Pipelined.{pipelined_commits}
use mini_raft.Tests.{entry, node, leading, five_nodes, empty_store, simple-IsReliable}

abbrev pub three_nodes : ServerConfig
three_nodes = record five_nodes {
  total_nodes = 3;
  peer_addresses = (1, "a") ∷ (2, "b") ∷ (3, "c") ∷ [];
}

-- Node 1 leads three nodes and has committed its one entry.
abbrev leader_of_three : Server SimpleStateMachine
leader_of_three =
    record (node (leader (replicate 4 (negsuc 0)) (replicate 4 1)) 1 (pos 0) (entry 1 0 ∷ [])) {
      config = three_nodes;
    }

abbrev follower_of_three : Server SimpleStateMachine
follower_of_three = node follower 1 (negsuc 0) (entry 1 0 ∷ [])

follower-IsInStep : IsInStep simple_state_machine leader_of_three follower_of_three
unfolding replay
follower-IsInStep = record {
  applied = 0;
  committed = 0;
  initial = empty_store;
  room = 31;
  same_log = refl;
  same_term = refl;
  last = refl;
  commit = refl;
  order = omega arith;
  inside = omega arith;
  store = refl;
  space = refl;
}

three-TracksAll : TracksAll (replicate 4 1) leader_of_three three_nodes.peer_addresses
three-TracksAll = (
  (λ ne. absurd (ne refl)),
  (
    (λ _. (omega arith, omega arith, omega arith)),
    ((λ _. (omega arith, omega arith, omega arith)), tt),
  ),
)

abbrev first : LogEntry
first = command_entry "k" "v" 5 6 leader_of_three

abbrev second : LogEntry
second = command_entry "k" "w" 7 8 (pushed first leader_of_three)

-- What a follower makes of the message for it.
abbrev took : NodeId → Server SimpleStateMachine
took i =
    (handle_append_entries (peer 1)
      (notice first (replicate 4 1) (pushed first leader_of_three) i).msg follower_of_three).1

pipelined_commits_example :
    ((handle_set_command "k" "w" 7 8
        (handle_set_command "k" "v" 5 6 leader_of_three).1).1.to_network.sent
      ≡ map (notice first (replicate 4 1) (pushed first leader_of_three)) (2 ∷ 3 ∷ [])
        ++ map
            (notice second (replicate 4 1) (pushed second (pushed first leader_of_three)))
            (2 ∷ 3 ∷ []))
    × (((took 2).log ≡ entry 1 0 ∷ first ∷ [])
        × ((took 2).to_network.sent ≡ answer_to 1 1 true ∷ []))
    × (((took 3).log ≡ entry 1 0 ∷ first ∷ [])
        × ((took 3).to_network.sent ≡ answer_to 1 1 true ∷ []))
    × HasApplied
        (pos 2)
        (replay simple_state_machine (entry 1 0 ∷ first ∷ second ∷ []) empty_store)
        (handle_append_entries_response
          (peer 3)
          (answer_to 1 1 true).msg
          (handle_append_entries_response
            (peer 2)
            (answer_to 1 1 true).msg
            (handle_set_command "k" "w" 7 8
              (handle_set_command "k" "v" 5 6 leader_of_three).1).1).1).1
unfolding replay
pipelined_commits_example =
    pipelined_commits simple-IsReliable empty_store "k" "k" "v" "w" 5 7 6 8 (replicate 4 (negsuc 0))
      (replicate 4 1) leader_of_three 0 27 refl (omega arith) (omega arith) (omega arith)
      (omega arith) refl refl (omega arith) refl 2 3 follower_of_three follower_of_three
      three-TracksAll refl (inl refl) (omega arith) (omega arith) (omega arith) refl
      follower-IsInStep (inr (inl refl)) (omega arith) (omega arith) (omega arith) refl
      follower-IsInStep

leading-TracksAll :
    TracksAll
      (replicate 6 0)
      (pushed (command_entry "k" "v" 5 6 leading) leading)
      leading.config.peer_addresses
leading-TracksAll = (
  (λ ne. absurd (ne refl)),
  (
    (λ _. (omega arith, omega arith, omega arith)),
    (
      (λ _. (omega arith, omega arith, omega arith)),
      (
        (λ _. (omega arith, omega arith, omega arith)),
        ((λ _. (omega arith, omega arith, omega arith)), tt),
      ),
    ),
  ),
)

-- The channel takes the messages for nodes 2 and 3; the one for node 4 waits when the timer fires.
recieve_until_drops_example : recieve_until 2 (request "k" "v" 5 6 9) leading ≡ (
  ok true,
  noted 4 (
      announced
        (command_entry "k" "v" 5 6 leading)
        (replicate 6 0)
        (2 ∷ 3 ∷ [])
        30
        (pushed (command_entry "k" "v" 5 6 leading) leading)),
)
recieve_until_drops_example =
    recieve_until_drops "k" "v" 5 6 (replicate 6 (negsuc 0)) (replicate 6 0) (2 ∷ 3 ∷ []) (5 ∷ []) 4
      9 leading refl (omega arith) leading-TracksAll refl (omega arith)
