-- ===== src/Tests/Leader.antt =====
-- What a leader does with a new command and with a follower's replies (src/server.rs), at concrete servers.
use mini_raft.Prelude.{
  ℕ, get_elem?, some, ◌≤◌, false, true, pos, ◌≡◌, refl, negsuc, [], ◌∷◌, map, replicate, arith,
}
use mini_raft.Protocol.{
  peer, to_node, LogEntry, AppendEntriesResponse, append_entries_type, append_entries_response_type,
}
use mini_raft.StateMachine.{SimpleStateMachine, simple_state_machine}
use mini_raft.Server.State.{Server, follower, leader}
use mini_raft.Server.Vote.Grant.{delivered}
use mini_raft.Server.Replicate.{match_count, update_commit, handle_append_entries_response}
use mini_raft.Server.Replicate.Backoff.{
  backed_off, resend, resend_refused, handle_append_entries_response_refused,
}
use mini_raft.Server.Action.{◌>>=◌, pure, ok, fault}
use mini_raft.Server.Append.{handle_append_entries}
use mini_raft.Server.Append.Replies.{answer_to}
use mini_raft.Server.Client.{handle_set_command}
use mini_raft.Server.Client.Sent.{
  TracksAll, command_entry, notice, pushed, announced, handle_set_command_sends,
}
use mini_raft.Server.Client.Restart.{notice_panics}
use mini_raft.Server.Replicate.Stranger.{handle_append_entries_response_panics}
use mini_raft.Server.Apply.Replay.{replay}
use mini_raft.Server.Replicate.Quorum.{IsCommittable}
use mini_raft.Server.Replicate.Answers.{
  answer_for, replied, confirmed, handle_append_entries_response_answers,
}
use mini_raft.Tests.{empty_store, entry, node, leading, simple-IsReliable}

leading-TracksAll :
    TracksAll
      (replicate 6 0)
      (pushed (command_entry "k" "v" 5 6 leading) leading)
      leading.config.peer_addresses
leading-TracksAll = (
  λ ne. absurd (ne refl),
  (
    λ _. (omega arith, omega arith, omega arith),
    (
      λ _. (omega arith, omega arith, omega arith),
      (
        λ _. (omega arith, omega arith, omega arith),
        (λ _. (omega arith, omega arith, omega arith), tt),
      ),
    ),
  ),
)

-- Node 1 leads with one entry; the other four peers each get a message.
handle_set_command_sends_example : handle_set_command "k" "v" 5 6 leading ≡ (
  ok tt,
  announced
      (command_entry "k" "v" 5 6 leading)
      (replicate 6 0)
      (2 ∷ 3 ∷ 4 ∷ 5 ∷ [])
      28
      (pushed (command_entry "k" "v" 5 6 leading) leading),
)
handle_set_command_sends_example =
    handle_set_command_sends "k" "v" 5 6 (replicate 6 (negsuc 0)) (replicate 6 0) leading 28 refl
      (omega arith) leading-TracksAll refl

notice_panics_example :
    ((handle_set_command "k" "v" 5 6 leading).1.to_network.sent
      ≡ notice
          (command_entry "k" "v" 5 6 leading)
          (replicate 6 0)
          (pushed (command_entry "k" "v" 5 6 leading) leading)
          2
        ∷ map
            (notice
              (command_entry "k" "v" 5 6 leading)
              (replicate 6 0)
              (pushed (command_entry "k" "v" 5 6 leading) leading))
            (3 ∷ 4 ∷ 5 ∷ []))
    × ((handle_append_entries
          (peer 1)
          (notice
            (command_entry "k" "v" 5 6 leading)
            (replicate 6 0)
            (pushed (command_entry "k" "v" 5 6 leading) leading)
            2).msg
          (node follower 1 (negsuc 0) [])).0
        ≡ fault)
notice_panics_example =
    notice_panics simple-IsReliable "k" "v" 5 6 (replicate 6 (negsuc 0)) (replicate 6 0) 2 28
      leading (node follower 1 (negsuc 0) []) refl (omega arith) leading-TracksAll refl
      (omega arith) refl refl refl refl

abbrev refusal : AppendEntriesResponse
refusal = record { term = 1; success = false }

handle_append_entries_response_refused_example :
    handle_append_entries_response (peer 2) (append_entries_response_type refusal) leading
    ≡ (update_commit (replicate 6 (negsuc 0)) >>= λ _. pure tt)
        (backed_off (replicate 6 (negsuc 0)) (replicate 6 0) 2 0 31 leading)
handle_append_entries_response_refused_example =
    handle_append_entries_response_refused (replicate 6 (negsuc 0)) (replicate 6 0) 2 refusal
      leading 31 refl (omega arith) refl (omega arith) (omega arith) (omega arith) refl

-- A follower with an entry of term 9 in the place of the leader's first.
abbrev stray : Server SimpleStateMachine
stray = node follower 1 (negsuc 0) (entry 9 0 ∷ [])

resend_refused_example :
    ((handle_append_entries_response
        (peer 2)
        (append_entries_response_type refusal)
        leading).1.state
      ≡ leader (replicate 6 (negsuc 0)) (replicate 6 0))
    × ((handle_append_entries_response
          (peer 2)
          (append_entries_response_type refusal)
          leading).1.to_network.sent
        ≡ record { dest = to_node 2; msg = append_entries_type (resend 0 leading) } ∷ [])
    × (handle_append_entries (peer 1) (append_entries_type (resend 0 leading)) stray
        ≡ (ok tt, delivered (answer_to 1 1 false) 31 stray))
resend_refused_example =
    resend_refused (replicate 6 (negsuc 0)) (replicate 6 0) 2 refusal leading stray 0 31 31
      (entry 9 0) [] refl (omega arith) refl (omega arith) (omega arith) (omega arith) (omega arith)
      (omega arith) refl (omega arith) refl refl (omega arith) (λ e. absurd (omega arith)) refl

abbrev accepted : AppendEntriesResponse
accepted = record { term = 1; success = true }

-- Five nodes, and a peer that calls itself 9.
handle_append_entries_response_panics_example :
    (handle_append_entries_response
      (peer 9)
      (append_entries_response_type (record { term = 1; success = false }))
      leading).0
    ≡ fault
handle_append_entries_response_panics_example =
    handle_append_entries_response_panics 9 (replicate 6 (negsuc 0)) (replicate 6 0)
      (record { term = 1; success = false }) leading refl
      (record { role = (refl, refl); marks = refl }) (omega arith) (omega arith)

-- The third node is the second follower to take the one entry.
abbrev one_acked : Server SimpleStateMachine
one_acked =
    node
      (leader (negsuc 0 ∷ negsuc 0 ∷ pos 0 ∷ negsuc 0 ∷ negsuc 0 ∷ negsuc 0 ∷ []) (replicate 6 1)) 1
      (negsuc 0) (entry 1 0 ∷ [])

committable :
    IsCommittable one_acked (negsuc 0 ∷ negsuc 0 ∷ pos 0 ∷ pos 0 ∷ negsuc 0 ∷ negsuc 0 ∷ []) 0
unfolding match_count
committable = record { entry = entry 1 0; found = refl; current = refl; majority = omega arith }

handle_append_entries_response_answers_example :
    (j : ℕ) × (e : LogEntry) × (0 ≤ j)
    × (j ≤ 0)
    × IsCommittable one_acked (negsuc 0 ∷ negsuc 0 ∷ pos 0 ∷ pos 0 ∷ negsuc 0 ∷ negsuc 0 ∷ []) j
    × (get_elem? one_acked.log j ≡ some e)
    × (handle_append_entries_response
          (peer 3)
          (append_entries_response_type (record { term = 1; success = true }))
          one_acked
        ≡ (
          ok tt,
          replied (answer_for e e.command) 31 (
              confirmed empty_store
                (negsuc 0 ∷ negsuc 0 ∷ pos 0 ∷ negsuc 0 ∷ negsuc 0 ∷ negsuc 0 ∷ [])
                (replicate 6 1)
                3
                0
                j
                one_acked),
        ))
unfolding replay
handle_append_entries_response_answers_example =
    handle_append_entries_response_answers simple-IsReliable empty_store
      (negsuc 0 ∷ negsuc 0 ∷ pos 0 ∷ negsuc 0 ∷ negsuc 0 ∷ negsuc 0 ∷ []) (replicate 6 1) 3 0 0 0 0
      31 (record { term = 1; success = true }) one_acked refl (omega arith) refl refl (omega arith)
      (omega arith) (omega arith) (omega arith) refl refl (omega arith) (omega arith) (omega arith)
      refl (omega arith) (omega arith) committable (omega arith) refl
