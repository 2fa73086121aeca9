-- ===== src/Tests.antt =====
-- The theorems at concrete inputs, and runs of the handlers that follow the tests of the source.
mod Leader
mod Paths
mod Runs
mod Commands
mod Pipelined
mod Wire
mod Elections
mod Following
mod History
use mini_raft.Prelude.{
  ℕ, ◌+◌, ℤ, pos, negsuc, ◌≡◌, refl, sym, inl, inr, true, false, none, some, List, [], ◌∷◌, ◌++◌,
  get_elem?, take, drop, replicate, if◌then◌else◌, arith,
}
use text.Mathlib.Text.{◌==◌}
use mini_raft.Protocol.{
  LogCommand, LogEntry, AppendEntries, RequestVote, RequestVoteResponse, append_entries_type,
  request_vote_response_type, peer,
}
use mini_raft.Config.{ServerConfig}
use mini_raft.StateMachine.{
  SimpleStateMachine, new, simple_state_machine, apply_log, get_value, delete_key,
}
use mini_raft.StateMachine.Laws.{view, with_value, store-refines_map}
use mini_raft.Server.State.{Server, RaftState, follower, candidate, leader}
use mini_raft.Server.Action.{ok, fault, ◌>>◌}
use mini_raft.Server.Apply.{apply_latest_commited_logs}
use mini_raft.Server.Apply.Replay.{
  upto, IsReliable, replay, replay-take_zero, apply_latest_commited_logs-replay,
}
use mini_raft.Server.Append.{
  append_reply, merge_entries, new_commit, prev_log_matches, handle_append_entries,
}
use mini_raft.Server.Append.Merge.{IsIndexedFrom, splice, merge_entries-eq-splice}
use mini_raft.Server.Append.Stored.{
  merge_entries_stored, merge_entries_idem, merge_entries-IsIndexedFrom,
}
use mini_raft.Server.Append.Replies.{
  answer_to, handle_append_entries_refuses, handle_append_entries_accepts,
  handle_append_entries_panics,
}
use mini_raft.Server.Vote.Grant.{delivered, votes_twice}
use mini_raft.Server.Vote.Election.{
  handle_replies, with_role, role_after, granted, handle_replies-counts,
}
use mini_raft.Server.Loop.{Event, rpc, timer, run}
use mini_raft.Server.Progress.{Later}
use mini_raft.Server.Progress.Loops.{run-Later}

-- The five nodes of the configuration files.
abbrev five_nodes : ServerConfig
five_nodes = record {
  election_timeout = 500;
  heartbeat_interval = 200;
  address = "127.0.0.1";
  total_nodes = 5;
  peer_addresses = (1, "a") ∷ (2, "b") ∷ (3, "c") ∷ (4, "d") ∷ (5, "e") ∷ [];
  node_id = 1;
  client_listener_address = "127.0.0.1:8081";
  peer_listener_address = "127.0.0.1:9001";
}

abbrev entry : ℕ → ℕ → LogEntry
entry term index = record {
  term = term;
  command = LogCommand.set "key" "value";
  index = index;
  client_id = 67;
  request_id = 67;
}

abbrev empty_store : SimpleStateMachine
empty_store = record { data_store = [] }

-- Node 1 in a role, with a term, a log and a commit index, and nothing applied.
abbrev node : RaftState → ℕ → ℤ → List LogEntry → Server SimpleStateMachine
node role term commit log = record {
  id = 1;
  inner = record {
    state = role;
    state_machine = empty_store;
    voted_for = none;
    last_heartbeat = 0;
    current_term = term;
    commit_index = commit;
    last_applied = negsuc 0;
    last_sent_index = replicate 6 (pos 0);
  };
  config = five_nodes;
  to_network = record { sent = []; room = 32 };
  log = log;
}

abbrev append : ℕ → ℤ → ℕ → List LogEntry → ℤ → AppendEntries
append term prev prev_term entries commit = record {
  term = term;
  leader_id = 2;
  prev_log_index = prev;
  prev_log_term = prev_term;
  entries = entries;
  leader_commit = commit;
}

-- The store of the source never fails.
simple-IsReliable : IsReliable simple_state_machine
unfolding apply_log delete_key
simple-IsReliable = record { apply_log_ok = λ k v s. refl; delete_key_ok = λ k s. refl }

store-refines_map_example :
    (view new ≡ λ _. none)
    × ((apply_log "a" "1" empty_store).1 ≡ true)
    × (view (apply_log "a" "1" empty_store).0 ≡ with_value "a" (some "1") (view empty_store))
    × ((delete_key "a" empty_store).1 ≡ true)
    × (view (delete_key "a" empty_store).0 ≡ with_value "a" none (view empty_store))
store-refines_map_example = store-refines_map "a" "1" empty_store

-- A log whose second entry is of an old term.
abbrev old_log : List LogEntry
old_log = entry 1 0 ∷ entry 1 1 ∷ entry 1 2 ∷ []

abbrev news : List LogEntry
news = entry 2 1 ∷ entry 2 2 ∷ []

merge_entries-eq-splice_example :
    merge_entries news old_log ≡ some (take 1 old_log ++ splice (drop 1 old_log) news)
merge_entries-eq-splice_example = merge_entries-eq-splice 1 news old_log (omega arith) (omega arith)

merged_log : merge_entries news old_log ≡ some (entry 1 0 ∷ news)
unfolding merge_entries
merged_log = refl

merge_entries_idem_example : merge_entries news (entry 1 0 ∷ news) ≡ some (entry 1 0 ∷ news)
merge_entries_idem_example =
    merge_entries_idem 1 news old_log (omega arith) (omega arith) merged_log

merge_entries-IsIndexedFrom_example : IsIndexedFrom 0 (entry 1 0 ∷ news)
merge_entries-IsIndexedFrom_example =
    merge_entries-IsIndexedFrom 1 news old_log (omega arith) (omega arith) merged_log (omega arith)

-- A follower with one entry, of which none is committed.
abbrev one_entry : Server SimpleStateMachine
one_entry = node follower 1 (negsuc 0) (entry 1 0 ∷ [])

apply_latest_commited_logs-replay_example : apply_latest_commited_logs (pos 7) one_entry ≡ (
  ok tt,
  record one_entry {
    inner = record one_entry.inner {
      commit_index = upto 1;
      last_applied = upto 1;
      state_machine = replay simple_state_machine (entry 1 0 ∷ []) empty_store;
    };
  },
)
apply_latest_commited_logs-replay_example =
    apply_latest_commited_logs-replay simple-IsReliable (pos 7) 0 0 one_entry empty_store refl refl
      (omega arith) (omega arith) (omega arith)
      (sym (replay-take_zero simple_state_machine (entry 1 0 ∷ []) empty_store))

abbrev two_more : AppendEntries
two_more = append 1 (pos 0) 1 (entry 1 1 ∷ entry 1 2 ∷ []) (pos 1)

-- `test_follower_accepts_valid_append_entries`
handle_append_entries_accepts_example :
    handle_append_entries (peer 2) (append_entries_type two_more) one_entry ≡ (
      ok tt,
      delivered (answer_to 2 1 true) 31 (record one_entry {
        log = entry 1 0 ∷ splice [] (entry 1 1 ∷ entry 1 2 ∷ []);
        inner = record one_entry.inner {
          commit_index = pos 1;
          last_applied = pos 0;
          state_machine = replay simple_state_machine (entry 1 0 ∷ []) empty_store;
        };
      }),
    )
handle_append_entries_accepts_example =
    handle_append_entries_accepts simple-IsReliable 2 two_more one_entry 1 0 0 31 empty_store
      (inl refl) (inr (entry 1 0, refl, refl)) (λ e. cc) (omega arith) (omega arith) (omega arith)
      refl refl (omega arith) (omega arith) (omega arith)
      (sym (replay-take_zero simple_state_machine (entry 1 0 ∷ []) empty_store)) refl

abbrev inconsistent : AppendEntries
inconsistent = append 1 (pos 1) 0 (entry 1 0 ∷ []) (pos 0)

-- `test_follower_rejects_incosistent_log_append_entries`
handle_append_entries_refuses_example :
    handle_append_entries (peer 67) (append_entries_type inconsistent) one_entry
    ≡ (ok tt, delivered (answer_to 67 1 false) 31 one_entry)
handle_append_entries_refuses_example =
    handle_append_entries_refuses 67 inconsistent one_entry 31 refl
      (inr ((λ e. cc e), omega arith, omega arith, λ h. cc h.1))

abbrev standing : Server SimpleStateMachine
standing = node (candidate 0) 1 (negsuc 0) []

abbrev fresh : Server SimpleStateMachine
fresh = node follower 1 (negsuc 0) []

-- A node that lost its log gets the leader's fourth entry.
abbrev fourth : AppendEntries
fourth = append 1 (pos 2) 1 (entry 1 3 ∷ []) (pos 2)

abbrev ask : ℕ → RequestVote
ask id = record { term = 2; candidate_id = id; last_log_index = pos 0; last_log_term = 1 }

-- Node 1 stood in term 1 and voted for itself.
abbrev voted : Server SimpleStateMachine
voted = record one_entry { inner = record one_entry.inner { voted_for = some 1 } }

abbrev yes_vote : RequestVoteResponse
yes_vote = record { term = 1; vote_granted = true }

-- Three replies of one and the same peer elect a leader of five nodes.
handle_replies-counts_example : handle_replies (yes_vote ∷ yes_vote ∷ yes_vote ∷ []) standing ≡ (
  ok tt,
  with_role (role_after (0 + granted (yes_vote ∷ yes_vote ∷ yes_vote ∷ [])) standing) standing,
)
handle_replies-counts_example =
    handle_replies-counts (yes_vote ∷ yes_vote ∷ yes_vote ∷ []) standing 0 refl (omega arith)
      (omega arith) (omega arith)

-- A leader of term 1 that two followers have told of entry 0.
abbrev leading : Server SimpleStateMachine
leading = node (leader (replicate 6 (negsuc 0)) (replicate 6 0)) 1 (negsuc 0) (entry 1 0 ∷ [])

abbrev acked : List ℤ
acked = negsuc 0 ∷ negsuc 0 ∷ pos 0 ∷ pos 0 ∷ negsuc 0 ∷ negsuc 0 ∷ []

abbrev story : List Event
story =
    timer 10
    ∷ rpc 11 (some (record { from = peer 2; msg = request_vote_response_type yes_vote }))
    ∷ timer 12
    ∷ []

run-Later_example : Later one_entry (run 0 story one_entry).1
run-Later_example = run-Later 0 story one_entry
