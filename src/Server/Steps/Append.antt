-- ===== src/Server/Steps/Append.antt =====
-- The writes of `handle_append_entries` (src/server.rs).
use mini_raft.Prelude.{
  ℕ, ◌≤◌, ℤ, ltb, as_i32, ltb→lt, not-ltb→le, ◌≡◌, refl, Bool, true, false, not, Option, none, some,
  List, [], ◌∷◌, last?, if◌then◌else◌, arith,
}
use mini_raft.Protocol.{
  NodeId, LogEntry, AppendEntries, Message, append_entries_type, RemoteId, peer, client, Outgoing,
}
use mini_raft.StateMachine.{StateMachine}
use mini_raft.Server.State.{Server, RaftState, follower, candidate, leader}
use mini_raft.Server.Action.{pure}
use mini_raft.Server.Roles.{become_follower_if_higher_term}
use mini_raft.Server.Apply.{apply_latest_commited_logs}
use mini_raft.Server.Append.{
  append_reply, merge_entries, prev_log_matches, new_commit, reply_false_if_lower_term,
  reply_false_if_prev_log_does_not_match, delete_conflicting_and_append_new_entries, adopt_term,
  store_entries, accept_entries, adopt_and_accept, append_entries_from, handle_append_entries,
}
use mini_raft.Server.Steps.{
  Steps, Steps-term, here, then_write, raised, followed, committed, merged, StaysIn, IsOwn,
}
use mini_raft.Server.Steps.Rules.{
  Runs, after, given, branch, done, failed, ignored, sends, run_rules,
}
use mini_raft.Server.Steps.Apply.{apply_latest-Runs}

new_commit-StaysIn :
    (msg : AppendEntries) (last : Option LogEntry) (commit : ℤ)
    → StaysIn commit (new_commit msg last commit)
unfolding new_commit as_i32
new_commit-StaysIn msg none commit = ground arith
new_commit-StaysIn msg (some e) commit = ground arith

module _ {S : Type 0} {Heard : Message → Type 0} {s : Server S} where
  pub lower_term-Runs :
      (msg : Message) (reply : Outgoing) (t : Server S)
      → Steps Heard s t
      → IsOwn t.current_term t.log reply.msg
      → Runs Heard s (reply_false_if_lower_term msg reply t)
  unfolding reply_false_if_lower_term
  lower_term-Runs msg reply t h w = search run_rules depth 6

  prev_log-Runs :
      (msg : AppendEntries) (n : NodeId) (t : Server S)
      → Steps Heard s t
      → Runs Heard s (reply_false_if_prev_log_does_not_match msg n t)
  unfolding reply_false_if_prev_log_does_not_match append_reply
  prev_log-Runs msg n t h =
      branch (prev_log_matches msg t.log) _ _ t (λ _. done h)
        (λ _. after _ (sends (append_reply n t.current_term false) t h refl) (λ _ _ r. done r))

  delete_conflicting-Runs :
      (msg : AppendEntries) (t : Server S)
      → Steps Heard s t
      → Heard (append_entries_type msg)
      → msg.term ≤ t.current_term
      → Runs Heard s (delete_conflicting_and_append_new_entries msg t)
  unfolding delete_conflicting_and_append_new_entries
  delete_conflicting-Runs msg t h g le =
      given (merge_entries msg.entries t.log) _ h
        (λ log e. done (then_write h (merged msg log g le e)))

  store_entries-Runs :
      (n : NodeId) (msg : AppendEntries) (t : Server S)
      → Steps Heard s t
      → Heard (append_entries_type msg)
      → msg.term ≤ t.current_term
      → Runs Heard s (store_entries n msg t)
  unfolding store_entries append_reply
  store_entries-Runs n msg t h g le = after _ (delete_conflicting-Runs msg t h g le) (λ _ _ r.
      sends _ _ (then_write r (committed _ (new_commit-StaysIn msg (last? msg.entries) _))) refl)

  -- A term that is not lower is taken over; the call goes on in that term.
  adopt_term-Runs :
      (msg : AppendEntries) (role : RaftState) (t : Server S)
      → Steps Heard s t
      → Heard (append_entries_type msg)
      → t.current_term ≤ msg.term
      → Runs Heard s (adopt_term msg.term role t)
  unfolding adopt_term become_follower_if_higher_term
  adopt_term-Runs msg follower t h g le =
      done (then_write h (raised (append_entries_type msg) msg.term g refl le))
  adopt_term-Runs msg (candidate _) t h g le =
      done (then_write h (followed (append_entries_type msg) msg.term g refl le))
  adopt_term-Runs msg (leader _ _) t h g le =
      done (then_write h (followed (append_entries_type msg) msg.term g refl le))

module _ {S : Type 0} where
  adopt_term-term :
      (term : ℕ) (role : RaftState) (t : Server S) → (adopt_term term role t).1.current_term ≡ term
  unfolding adopt_term become_follower_if_higher_term
  adopt_term-term term follower t = refl
  adopt_term-term term (candidate _) t = refl
  adopt_term-term term (leader _ _) t = refl

  adopted-term :
      (b : Bool) (term : ℕ) (t : Server S)
      → (b ≡ false → term ≤ t.current_term)
      → term ≤ ((if b then adopt_term term t.state else pure true) t).1.current_term
  adopted-term true term t k = omega (arith, adopt_term-term term t.state t)
  adopted-term false term t k = k refl

module _ {S : Type 0} ⦃m : StateMachine S⦄ {Heard : Message → Type 0} {s : Server S} where
  accept_entries-Runs :
      (n : NodeId) (msg : AppendEntries) (entries : List LogEntry) (t : Server S)
      → Steps Heard s t
      → Heard (append_entries_type msg)
      → msg.term ≤ t.current_term
      → Runs Heard s (accept_entries n msg entries t)
  unfolding accept_entries
  accept_entries-Runs n msg [] t h g le = ignored (apply_latest-Runs msg.leader_commit t h)
  accept_entries-Runs n msg (_ ∷ _) t h g le =
      let q : Runs Heard t (apply_latest_commited_logs msg.leader_commit t) =
        apply_latest-Runs msg.leader_commit t here in
      after _ (ignored (apply_latest-Runs msg.leader_commit t h))
        (λ _ _ r. store_entries-Runs n msg _ r g (omega (arith, Steps-term q.steps)))

  adopt_and_accept-Runs :
      (n : NodeId) (msg : AppendEntries) (t : Server S)
      → Steps Heard s t
      → Heard (append_entries_type msg)
      → Runs Heard s (adopt_and_accept n msg t)
  unfolding adopt_and_accept
  adopt_and_accept-Runs n msg t h g =
      let b = ltb t.current_term msg.term in
      after _
        (branch b _ _ t
          (λ lt.
            adopt_term-Runs msg t.state t h g (omega (arith, ltb→lt t.current_term msg.term lt)))
          (λ _. done h))
        (λ proceed _ r.
          branch proceed _ _ _
            (λ _.
              accept_entries-Runs n msg msg.entries _ r g
                (adopted-term b msg.term t (λ ge. not-ltb→le t.current_term msg.term ge)))
            (λ _. done r))

  append_entries_from-Runs :
      (n : NodeId) (msg : AppendEntries) (t : Server S)
      → Steps Heard s t
      → Heard (append_entries_type msg)
      → Runs Heard s (append_entries_from n msg t)
  unfolding append_entries_from append_reply
  append_entries_from-Runs n msg t h g =
      branch (ltb msg.term t.current_term) _ _ t
        (λ _.
          lower_term-Runs (append_entries_type msg) (append_reply n t.current_term false) t h refl)
        (λ _. after _ (prev_log-Runs msg n t h) (λ matched _ r.
          branch (not matched) _ _ _ (λ _. done r) (λ _. adopt_and_accept-Runs n msg _ r g)))

  pub append_entries-Runs :
      (from : RemoteId) (msg : Message) (t : Server S)
      → Steps Heard s t
      → Heard msg
      → Runs Heard s (handle_append_entries from msg t)
  unfolding handle_append_entries
  append_entries-Runs (peer n) (append_entries_type msg) t h g =
      append_entries_from-Runs n msg t h g
  append_entries-Runs (client _) (append_entries_type msg) t h g = done h
  append_entries-Runs _ _ t h g = failed h
