-- ===== src/Server/Append/Replies.antt =====
-- `handle_append_entries` as a whole (src/server.rs), branch by branch: what it answers, and the
-- state that it leaves.
use mini_raft.Prelude.{
  ℕ, ◌+◌, min, max, ℤ, Bool, suc, ◌≤◌, ◌<◌, ◌≡◌, ◌≢◌, refl, ap, sym, subst, ◌∙◌, ◌⊎◌, inl, inr,
  true, false, none, some, List, [], ◌∷◌, ◌++◌, length, take, drop, last?, i32_size, arith,
}
use mini_raft.Protocol.{
  NodeId, LogEntry, AppendEntries, append_entries_type, append_entries_response_type, peer, to_node,
  Outgoing,
}
use mini_raft.StateMachine.{StateMachine}
use mini_raft.Server.State.{Server, follower}
use mini_raft.Server.Action.{Outcome, ok, fault, resume, dropped}
use mini_raft.Server.Apply.{apply_latest_commited_logs}
use mini_raft.Server.Apply.Replay.{
  upto, count_to, IsReliable, replay, replay-take_zero, committed,
  apply_latest_commited_logs-replay,
}
use mini_raft.Server.Vote.Grant.{delivered, send_room}
use mini_raft.Server.Append.{
  append_reply, reply_false_if_lower_term, reply_false_if_prev_log_does_not_match, prev_log_matches,
  merge_entries, new_commit, adopt_term, store_entries, accept_entries, adopt_and_accept,
  append_entries_from, handle_append_entries, delete_conflicting_and_append_new_entries,
}
use mini_raft.Server.Append.Fits.{Holds, Lacks, fits_match, Lacks-mismatch}
use mini_raft.Server.Append.Advance.{advanced, new_commit_lem}
use mini_raft.Server.Append.Merge.{IsIndexedFrom, splice, merge_entries-eq-splice}
use mini_raft.Server.Append.Stored.{merge_entries_gap}

-- The answer to an append: to the node that it came from.
abbrev pub answer_to : NodeId → ℕ → Bool → Outgoing
answer_to node term success = record {
  dest = to_node node;
  msg = append_entries_response_type (record { term = term; success = success });
}

module _ {S : Type 0} ⦃m : StateMachine S⦄ (node : NodeId) (msg : AppendEntries)
    (s : Server S) where
  refuses_lem :
      (r : ℕ)
      → s.to_network.room ≡ suc r
      → (msg.term < s.current_term) ⊎ (prev_log_matches msg s.log ≡ false)
      → handle_append_entries (peer node) (append_entries_type msg) s
        ≡ (ok tt, delivered (append_reply node s.current_term false) r s)
  unfolding handle_append_entries append_entries_from reply_false_if_lower_term
      reply_false_if_prev_log_does_not_match
  refuses_lem r room (inl stale) =
      ground (arith, send_room (append_reply node s.current_term false) s r room)
  refuses_lem r room (inr mismatch) =
      ground (arith, send_room (append_reply node s.current_term false) s r room)

  -- An append is refused by a node that can send when it is of an older term; also when the log is not
  -- empty, is shorter than 2^31, and has no entry of the term prev_log_term at prev_log_index, which is
  -- -2^31 or more: the node that the append came from gets one failure in this node's term, and
  -- nothing else changes.
  pub handle_append_entries_refuses :
      (r : ℕ)
      → s.to_network.room ≡ suc r
      → (msg.term < s.current_term) ⊎ Lacks msg.prev_log_index msg.prev_log_term s.log
      → handle_append_entries (peer node) (append_entries_type msg) s
        ≡ (ok tt, delivered (answer_to node s.current_term false) r s)
  unfolding append_reply
  handle_append_entries_refuses r room (inl stale) = refuses_lem r room (inl stale)
  handle_append_entries_refuses r room (inr lacks) =
      refuses_lem r room (inr (Lacks-mismatch msg s.log lacks))

  -- An append that is to be stored: of this term, or of a later one at a follower, and fitting.
  taken_over :
      (msg.term ≡ s.current_term) ⊎ ((s.current_term < msg.term) × (s.state ≡ follower))
      → prev_log_matches msg s.log ≡ true
      → handle_append_entries (peer node) (append_entries_type msg) s
        ≡ accept_entries node msg msg.entries
            (record s { inner = record s.inner { current_term = msg.term } })
  unfolding handle_append_entries append_entries_from reply_false_if_prev_log_does_not_match
      adopt_and_accept adopt_term
  taken_over (inl same) fits = matched same fits ∙ (λ i.
      accept_entries node msg msg.entries
        (record s { inner = record s.inner { current_term = sym same i } }))
    where
      matched :
          msg.term ≡ s.current_term
          → prev_log_matches msg s.log ≡ true
          → handle_append_entries (peer node) (append_entries_type msg) s
            ≡ accept_entries node msg msg.entries s
      matched e f = ground arith
  taken_over (inr (newer, role)) fits = ground arith

-- The server once the entries are in its log.
abbrev pub stored : {S : Type 0} → AppendEntries → List LogEntry → Server S → Server S
stored msg log s = record s {
  log = log;
  inner = record s.inner { commit_index = new_commit msg (last? msg.entries) s.commit_index };
}

store_entries_lem :
    {S : Type 0} (node : NodeId) (msg : AppendEntries) (log : List LogEntry) (s : Server S) (r : ℕ)
    → merge_entries msg.entries s.log ≡ some log
    → s.to_network.room ≡ suc r
    → store_entries node msg s
      ≡ (ok tt, delivered (append_reply node s.current_term true) r (stored msg log s))
unfolding store_entries delete_conflicting_and_append_new_entries
store_entries_lem node msg log s r merged room =
    ground (arith, send_room (append_reply node s.current_term true) (stored msg log s) r room)

accept_entries_lem :
    {S : Type 0} ⦃m : StateMachine S⦄ (node : NodeId) (msg : AppendEntries) (es : List LogEntry)
    (s t : Server S)
    → es ≢ []
    → apply_latest_commited_logs msg.leader_commit s ≡ (ok tt, t)
    → accept_entries node msg es s ≡ store_entries node msg t
unfolding accept_entries
accept_entries_lem node msg [] s t filled h = absurd (filled refl)
accept_entries_lem {S} node msg (e ∷ es) s t filled h =
    ap
      (λ (q : Outcome (Unit {0}) × Server S).
        resume (dropped q.0) (λ _. store_entries node msg) q.1)
      h

-- An append that is accepted, in the handler's own terms.
pub handle_append_entries_lem :
    {S : Type 0} ⦃m : StateMachine S⦄ (reliable : IsReliable m) (node : NodeId)
    (msg : AppendEntries) (s : Server S) (p k c r : ℕ) (start : S)
    → (msg.term ≡ s.current_term) ⊎ ((s.current_term < msg.term) × (s.state ≡ follower))
    → prev_log_matches msg s.log ≡ true
    → msg.entries ≢ []
    → IsIndexedFrom p msg.entries
    → p ≤ length s.log
    → s.last_applied ≡ upto k
    → s.commit_index ≡ upto c
    → k ≤ c
    → c ≤ length s.log
    → length s.log < i32_size
    → s.state_machine ≡ replay m (take k s.log) start
    → s.to_network.room ≡ suc r
    → let d = committed msg.leader_commit (length s.log) c in
      handle_append_entries (peer node) (append_entries_type msg) s ≡ (
        ok tt,
        delivered (append_reply node msg.term true) r (record s {
          log = take p s.log ++ splice (drop p s.log) msg.entries;
          inner = record s.inner {
            current_term = msg.term;
            commit_index = new_commit msg (last? msg.entries) (upto d);
            last_applied = upto d;
            state_machine = replay m (take d s.log) start;
          };
        }),
      )
handle_append_entries_lem reliable node msg s p k c r start who fits some_entries indexed inside a b
      kc cl small store room =
    taken_over node msg s who fits
    ∙ accept_entries_lem node msg msg.entries _ _ some_entries (
        apply_latest_commited_logs-replay reliable msg.leader_commit k c
          (record s { inner = record s.inner { current_term = msg.term } }) start a b kc cl small
          store)
    ∙ store_entries_lem node msg _ _ r (merge_entries-eq-splice p msg.entries s.log indexed inside)
        room

-- The whole of an append that carries entries and is accepted. The node is in the sender's term, or a
-- follower in an earlier one; its log is empty or has an entry of the term prev_log_term at
-- prev_log_index; the new entries, one or more, have consecutive indices below 2^31 that begin at p,
-- inside the log or right after it; the log is shorter than 2^31; the first c entries are committed,
-- the first k of those have been applied to a reliable store, and there is room for the answer. Then
-- the entries that the leader knows to be committed and that were in the log before, d in all with
-- those that were committed, are applied; the new ones are spliced in from p on; if the leader has
-- committed more than d, its commit index becomes the node's, or the index of the last new entry if
-- that is lower; and the node that the append came from gets a success in the append's term, which is
-- now the node's.
pub handle_append_entries_accepts :
    {S : Type 0} ⦃m : StateMachine S⦄ (reliable : IsReliable m) (node : NodeId)
    (msg : AppendEntries) (s : Server S) (p k c r : ℕ) (start : S)
    → (msg.term ≡ s.current_term) ⊎ ((s.current_term < msg.term) × (s.state ≡ follower))
    → (s.log ≡ []) ⊎ Holds msg.prev_log_index msg.prev_log_term s.log
    → msg.entries ≢ []
    → IsIndexedFrom p msg.entries
    → p + length msg.entries ≤ i32_size
    → p ≤ length s.log
    → s.last_applied ≡ upto k
    → s.commit_index ≡ upto c
    → k ≤ c
    → c ≤ length s.log
    → length s.log < i32_size
    → s.state_machine ≡ replay m (take k s.log) start
    → s.to_network.room ≡ suc r
    → let known = count_to msg.leader_commit in
      let d = max c (min known (length s.log)) in
      handle_append_entries (peer node) (append_entries_type msg) s ≡ (
        ok tt,
        delivered (answer_to node msg.term true) r (record s {
          log = take p s.log ++ splice (drop p s.log) msg.entries;
          inner = record s.inner {
            current_term = msg.term;
            commit_index = upto (advanced known (p + length msg.entries) d);
            last_applied = upto d;
            state_machine = replay m (take d s.log) start;
          };
        }),
      )
unfolding append_reply
handle_append_entries_accepts {S} ⦃m⦄ reliable node msg s p k c r start who fits some_entries
      indexed low inside a b kc cl small store room =
    let d = committed msg.leader_commit (length s.log) c in
    handle_append_entries_lem reliable node msg s p k c r start who (fits_match msg s.log fits)
      some_entries indexed inside a b kc cl small store room
    ∙ ap
        (λ (z : ℤ).
          let good : Outcome (Unit {0}) = ok tt in
          (
            good,
            delivered (answer_to node msg.term true) r (record s {
              log = take p s.log ++ splice (drop p s.log) msg.entries;
              inner = record s.inner {
                current_term = msg.term;
                commit_index = z;
                last_applied = upto d;
                state_machine = replay m (take d s.log) start;
              };
            }),
          ))
        (new_commit_lem msg p d some_entries indexed low)

merge_past_end :
    (p : ℕ) (es log : List LogEntry)
    → es ≢ []
    → IsIndexedFrom p es
    → length log < p
    → merge_entries es log ≡ none
merge_past_end p [] log filled indexed past = absurd (filled refl)
merge_past_end p (e ∷ es) log filled indexed past = merge_entries_gap p e es log indexed past

store_entries_fault :
    {S : Type 0} (node : NodeId) (msg : AppendEntries) (s : Server S)
    → merge_entries msg.entries s.log ≡ none
    → (store_entries node msg s).0 ≡ fault
unfolding store_entries delete_conflicting_and_append_new_entries
store_entries_fault node msg s gap = ground arith

prev_log_matches_empty : (msg : AppendEntries) → prev_log_matches msg [] ≡ true
unfolding prev_log_matches
prev_log_matches_empty msg = refl

-- A node with an empty log takes every previous entry for a match, so an append of this term whose
-- entries begin at an index p > 0 gets through to `Vec::insert`, which panics.
pub handle_append_entries_panics :
    {S : Type 0} ⦃m : StateMachine S⦄ (reliable : IsReliable m) (node : NodeId)
    (msg : AppendEntries) (s : Server S) (p : ℕ)
    → msg.term ≡ s.current_term
    → s.log ≡ []
    → s.last_applied ≡ upto 0
    → s.commit_index ≡ upto 0
    → msg.entries ≢ []
    → IsIndexedFrom p msg.entries
    → 0 < p
    → (handle_append_entries (peer node) (append_entries_type msg) s).0 ≡ fault
handle_append_entries_panics reliable node msg s p same empty a b some_entries indexed past =
    ap (λ (q : Outcome (Unit {0}) × Server _). q.0)
      (taken_over node msg s (inl same)
          (subst (λ l. prev_log_matches msg l ≡ true) (sym empty) (prev_log_matches_empty msg))
        ∙ accept_entries_lem node msg msg.entries _ _ some_entries (
            apply_latest_commited_logs-replay reliable msg.leader_commit 0 0
              (record s { inner = record s.inner { current_term = msg.term } }) s.state_machine a b
              (omega arith) (omega arith) (omega (arith, ap length empty))
              (sym (replay-take_zero _ s.log s.state_machine))))
    ∙ store_entries_fault node msg _
        (merge_past_end p msg.entries s.log some_entries indexed (omega (arith, ap length empty)))
