-- ===== src/Cluster/Replication.antt =====
-- A command from the leader's log to a follower's (`handle_set_command` and `handle_append_entries`,
-- src/server.rs).
use mini_raft.Prelude.{
  ℕ, suc, ◌≤◌, ◌<◌, ◌≡◌, refl, sym, ap, subst, ◌∙◌, inl, true, none, some, String, List, [], ◌∷◌,
  ◌++◌, length, get_elem?-some, get_elem?-append_left, take, drop, drop-length, take-append_length,
  append-nil, i32_size, eq→==, Option, arith,
}
use mini_raft.Protocol.{NodeId, LogEntry, AppendEntries, peer}
use mini_raft.StateMachine.{StateMachine}
use mini_raft.Server.State.{Server}
use mini_raft.Server.Action.{ok}
use mini_raft.Server.Apply.Replay.{upto, replay, IsReliable}
use mini_raft.Server.Append.{append_reply, prev_log_matches, handle_append_entries}
use mini_raft.Server.Append.Merge.{splice}
use mini_raft.Server.Append.Replies.{handle_append_entries_lem}
use mini_raft.Server.Client.Sent.{before, term_before, next_of, notice, command_entry, pushed}

abbrev pub term_at : Option LogEntry → ℕ
term_at none = 0
term_at (some e) = e.term

-- The end of a log matches itself, as the sender of a longer log describes it.
end_matches :
    (log more : List LogEntry) (msg : AppendEntries)
    → msg.prev_log_index ≡ before (length log)
    → msg.prev_log_term ≡ term_before (log ++ more) (length log)
    → prev_log_matches msg log ≡ true
unfolding prev_log_matches
end_matches [] more msg index term = refl
end_matches (x ∷ xs) more msg index term =
    let (e, found) = get_elem?-some (x ∷ xs) (length xs) (omega arith) in
    let same : msg.prev_log_term ≡ e.term =
      term ∙ ap term_at (get_elem?-append_left (x ∷ xs) more (length xs) (omega arith) ∙ found) in
    rw (prev_log_matches, index, found) (eq→== e.term msg.prev_log_term (sym same))

splice_end :
    (log : List LogEntry) (e : LogEntry)
    → take (length log) log ++ splice (drop (length log) log) (e ∷ []) ≡ log ++ e ∷ []
unfolding splice
splice_end log e = rw (drop-length log) (
    ap (λ l. l ++ e ∷ [])
      (ap (take (length log)) (sym (append-nil log)) ∙ take-append_length log []))

abbrev notice_message : {S : Type 0} → LogEntry → List ℕ → Server S → NodeId → AppendEntries
notice_message entry next s i = record {
  term = s.current_term;
  leader_id = s.id;
  prev_log_index = before (next_of next i);
  prev_log_term = term_before s.log (next_of next i);
  entries = entry ∷ [];
  leader_commit = s.commit_index;
}

module _ {S : Type 0} ⦃m : StateMachine S⦄ where
  -- A command that a leader has just taken reaches a follower that had the same log, that the leader
  -- takes to have it, that is in the leader's term, whose store is reliable and holds the first k
  -- entries, k ≤ c committed ones, and that has room for its reply, the log being shorter than 2^31:
  -- the follower's log is the leader's new one, it answers with a success, and nothing fails.
  pub notice_replicates :
      (reliable : IsReliable m) (key value : String) (client_id request_id : ℕ) (next : List ℕ)
      (i : NodeId) (s f : Server S) (k c r : ℕ) (initial : S)
      → next_of next i ≡ length s.log
      → f.log ≡ s.log
      → f.current_term ≡ s.current_term
      → f.last_applied ≡ upto k
      → f.commit_index ≡ upto c
      → k ≤ c
      → c ≤ length s.log
      → length s.log < i32_size
      → f.state_machine ≡ replay m (take k f.log) initial
      → f.to_network.room ≡ suc r
      → let leading = pushed (command_entry key value client_id request_id s) s in
        let reached =
          handle_append_entries
            (peer s.id)
            (notice (command_entry key value client_id request_id s) next leading i).msg
            f in
        (reached.0 ≡ ok tt)
        × (reached.1.log ≡ leading.log)
        × (reached.1.to_network.sent
            ≡ f.to_network.sent ++ append_reply s.id s.current_term true ∷ [])
  notice_replicates reliable key value client_id request_id next i s f k c r initial caught same_log
        same_term a b kc cl small store room =
      let entry = command_entry key value client_id request_id s in
      let msg = notice_message entry next (pushed entry s) i in
      let len = ap length same_log in
      let matches =
        subst (λ l. prev_log_matches msg l ≡ true) (sym same_log)
          (end_matches s.log (entry ∷ []) msg (ap before caught)
            (ap (term_before (s.log ++ entry ∷ [])) caught)) in
      let e =
        handle_append_entries_lem reliable s.id msg f (length s.log) k c r initial
          (inl (sym same_term)) matches (λ q. cc q) (refl, tt) (omega (arith, len)) a b kc
          (omega (arith, len)) (omega (arith, len)) store room in
      (
        ap (λ q. q.0) e,
        ap (λ q. q.1.log) e
            ∙ ap (λ l. take (length s.log) l ++ splice (drop (length s.log) l) (entry ∷ []))
                same_log
            ∙ splice_end s.log entry,
        ap (λ q. q.1.to_network.sent) e,
      )
