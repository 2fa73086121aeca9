-- ===== src/Tests/Commands.antt =====
-- A command that one more follower takes (src/server.rs), at a concrete leader and follower.
use mini_raft.Prelude.{
  ℤ, ◌≡◌, refl, true, inl, inr, pos, negsuc, List, [], ◌∷◌, map, replicate, arith,
}
use mini_raft.Protocol.{LogEntry, peer}
use mini_raft.StateMachine.{SimpleStateMachine, simple_state_machine}
use mini_raft.Server.State.{Server, leader}
use mini_raft.Server.Append.{handle_append_entries}
use mini_raft.Server.Append.Replies.{answer_to}
use mini_raft.Server.Apply.Replay.{replay}
use mini_raft.Server.Client.{handle_set_command}
use mini_raft.Server.Client.Sent.{notice, command_entry, pushed, TracksAll}
use mini_raft.Server.Replicate.{match_count, handle_append_entries_response}
use mini_raft.Server.Replicate.Finish.{HasApplied}
use mini_raft.Cluster.Commit.{command_commits}
use mini_raft.Tests.{entry, node, one_entry, empty_store, simple-IsReliable}

-- Node 1 has committed its one entry, and node 2 is noted to have the next one already.
abbrev matched : List ℤ
matched = negsuc 0 ∷ negsuc 0 ∷ pos 1 ∷ negsuc 0 ∷ negsuc 0 ∷ negsuc 0 ∷ []

abbrev ahead : Server SimpleStateMachine
ahead = node (leader matched (replicate 6 1)) 1 (pos 0) (entry 1 0 ∷ [])

ahead-TracksAll :
    TracksAll
      (replicate 6 1)
      (pushed (command_entry "k" "v" 5 6 ahead) ahead)
      ahead.config.peer_addresses
ahead-TracksAll = (
  (λ ne. absurd (ne refl)),
  (
    (λ _. (omega arith, omega arith, omega arith)),
    (
      (λ _. (omega arith, omega arith, omega arith)),
      (
        (λ _. (omega arith, omega arith, omega arith)),
        ((λ _. (omega arith, omega arith, omega arith)), tt),
      ),
    ),
  ),
)

abbrev set_entry : LogEntry
set_entry = command_entry "k" "v" 5 6 ahead

command_commits_example :
    ((handle_set_command "k" "v" 5 6 ahead).1.to_network.sent
      ≡ map (notice set_entry (replicate 6 1) (pushed set_entry ahead)) (2 ∷ 3 ∷ 4 ∷ 5 ∷ []))
    × ((handle_append_entries
          (peer 1)
          (notice set_entry (replicate 6 1) (pushed set_entry ahead) 3).msg
          one_entry).1.log
        ≡ (handle_set_command "k" "v" 5 6 ahead).1.log)
    × ((handle_append_entries
          (peer 1)
          (notice set_entry (replicate 6 1) (pushed set_entry ahead) 3).msg
          one_entry).1.to_network.sent
        ≡ answer_to 1 1 true ∷ [])
    × HasApplied
        (pos 1)
        (replay simple_state_machine (entry 1 0 ∷ set_entry ∷ []) empty_store)
        (handle_append_entries_response
          (peer 3)
          (answer_to 1 1 true).msg
          (handle_set_command "k" "v" 5 6 ahead).1).1
unfolding match_count replay
command_commits_example =
    command_commits simple-IsReliable empty_store "k" "v" 5 6 matched (replicate 6 1) 3 ahead 0 0 0
      28 31 one_entry empty_store refl (inr (inl refl)) (omega arith) (omega arith) (omega arith)
      (omega arith) (omega arith) ahead-TracksAll refl (omega arith) refl refl (omega arith) refl
      refl refl refl refl refl (omega arith) (omega arith) refl refl
