-- ===== src/Server/Replicate/Backoff.antt =====
-- What a leader does when a follower refuses its entries (`handle_append_entries_response`,
-- src/server.rs).
use mini_raft.Prelude.{
  sym, subst, inl, inr, [], ◌++◌, ℕ, suc, ◌-◌, ◌≤◌, ◌<◌, ℤ, pos, ◌≡◌, ◌≢◌, refl, ap, ◌∙◌, false,
  none, some, List, ◌∷◌, le→not-ltb, length, get_elem?, get_elem?-some, drop, written,
  write-written, slice_from-drop, as_i32_small, i32_size, arith,
}
use mini_raft.Protocol.{
  NodeId, LogEntry, AppendEntries, AppendEntriesResponse, append_entries_type,
  append_entries_response_type, peer, to_node,
}
use mini_raft.StateMachine.{StateMachine}
use mini_raft.Server.State.{Server, leader}
use mini_raft.Server.Action.{Outcome, resume, ok, ◌>>=◌, pure}
use mini_raft.Server.Append.{handle_append_entries}
use mini_raft.Server.Append.Fits.{Lacks}
use mini_raft.Server.Apply.Replay.{upto}
use mini_raft.Server.Steps.Rules.{after_ok}
use mini_raft.Server.Replicate.Quorum.{update_commit-Scanned}
use mini_raft.Server.Append.Replies.{answer_to, handle_append_entries_refuses}
use mini_raft.Server.Vote.Grant.{delivered, send_room}
use mini_raft.Server.Client.Sent.{next_of, get_elem?-next_of}
use mini_raft.Server.Replicate.{
  retry_message, record_failure, update_commit, response_from, response_as,
  handle_append_entries_response,
}

-- The term of the entry at n, 0 past the end.
abbrev pub term_at : List LogEntry → ℕ → ℕ
term_at log n = elim (get_elem? log n) [ none ↦ 0 | some e ↦ e.term ]

term_at-found :
    (log : List LogEntry) (n : ℕ) {e : LogEntry} → get_elem? log n ≡ some e → e.term ≡ term_at log n
term_at-found log n found = ground (arith, found)

module _ {S : Type 0} where
  -- The message of a retry: all from n on, behind index n itself.
  abbrev pub resend : ℕ → Server S → AppendEntries
  resend n s = record {
    term = s.current_term;
    leader_id = s.id;
    prev_log_index = pos n;
    prev_log_term = term_at s.log n;
    entries = drop n s.log;
    leader_commit = s.commit_index;
  }

  first-Lacks :
      (s : Server S) (log : List LogEntry) (first : LogEntry) (rest : List LogEntry)
      → log ≡ first ∷ rest
      → length log < i32_size
      → first.term ≢ term_at s.log 0
      → Lacks (resend 0 s).prev_log_index (resend 0 s).prev_log_term log
  first-Lacks s log first rest e small other = (
    λ q. cc (e, q),
    small,
    omega arith,
    λ h. other (some_term first h.0 (sym (ap (λ l. get_elem? l 0) e) ∙ h.1) ∙ h.2),
  )
    where
      some_term : (a b : LogEntry) → some a ≡ some b → a.term ≡ b.term
      some_term a b q = cc q

  -- The leader once peer i's next index is n, the retry is sent, and there is room for r more.
  abbrev pub backed_off : List ℤ → List ℕ → NodeId → ℕ → ℕ → Server S → Server S
  backed_off m next i n r s =
      delivered (record { dest = to_node i; msg = append_entries_type (resend n s) }) r
        (record s { inner = record s.inner { state = leader m (written i n next) } })

  record_failure_lem :
      (m : List ℤ) (next : List ℕ) (i : NodeId) (s : Server S) (r : ℕ)
      → i < length next
      → next_of next i - 1 < length s.log
      → length s.log < i32_size
      → s.to_network.room ≡ suc r
      → record_failure i m next s ≡ (ok m, backed_off m next i (next_of next i - 1) r s)
  unfolding record_failure retry_message
  record_failure_lem m next i s r inside held small room =
      let n = next_of next i - 1 in
      let (e, found) = get_elem?-some s.log n held in
      rw
        (
          get_elem?-next_of next i inside,
          write-written next i n inside,
          as_i32_small n (omega arith),
          found,
          term_at-found s.log n found,
          slice_from-drop n s.log (omega arith),
        )
        (ap (λ (q : Outcome (Unit {0}) × Server S). resume q.0 (λ _ t. (ok m, t)) q.1)
          (send_room (record { dest = to_node i; msg = append_entries_type (resend n s) })
            (record s { inner = record s.inner { state = leader m (written i n next) } }) r room))

  -- A refusal from peer i, in a term that is not later, at a leader whose vectors and log reach that
  -- far: the peer's next index goes back by one, but not below 0, and all entries from there on are
  -- sent to it, behind the one at that very index; what follows is the scan for a new commit index.
  pub handle_append_entries_response_refused :
      ⦃sm : StateMachine S⦄ (m : List ℤ) (next : List ℕ) (i : NodeId) (msg : AppendEntriesResponse)
      (s : Server S) (r : ℕ)
      → s.state ≡ leader m next
      → msg.term ≤ s.current_term
      → msg.success ≡ false
      → i < length next
      → next_of next i - 1 < length s.log
      → length s.log < i32_size
      → s.to_network.room ≡ suc r
      → handle_append_entries_response (peer i) (append_entries_response_type msg) s
        ≡ (update_commit m >>= λ _. pure tt) (backed_off m next i (next_of next i - 1) r s)
  unfolding handle_append_entries_response response_as response_from
  handle_append_entries_response_refused m next i msg s r role term failed inside held small room =
      ap (λ st. response_as st (peer i) msg s) role
      ∙ rw
          (
            le→not-ltb s.current_term msg.term term,
            failed,
            record_failure_lem m next i s r inside held small room,
          )
          refl

  -- The scan for a new commit index leaves the role and the messages.
  scan_keeps :
      (m : List ℤ) (next : List ℕ) (u : Server S) (c : ℕ)
      → u.state ≡ leader m next
      → 0 < length u.log
      → 2 ≤ u.config.total_nodes
      → u.commit_index ≡ upto c
      → c ≤ length u.log
      → length u.log < i32_size
      → let done = ((update_commit m >>= λ _. pure tt) u).1 in
        (done.state ≡ leader m next) × (done.to_network.sent ≡ u.to_network.sent)
  scan_keeps m next u c role filled nodes ci cl small =
      elim (update_commit-Scanned m u nodes c ci cl (omega arith) small) [
        | inl (j, _, _, _, _, e) ↦
            subst
              (λ (q : Outcome (Unit {0}) × Server S).
                (q.1.state ≡ leader m next) × (q.1.to_network.sent ≡ u.to_network.sent))
              (sym (after_ok (λ _. pure tt) e)) (role, refl)
        | inr (_, e) ↦
            subst
              (λ (q : Outcome (Unit {0}) × Server S).
                (q.1.state ≡ leader m next) × (q.1.to_network.sent ≡ u.to_network.sent))
              (sym (after_ok (λ _. pure tt) e)) (role, refl)
      ]

  -- A leader of 2 nodes or more with a log that is not empty, the first c entries of it committed, and
  -- with room for a message hears a refusal, in a term that is not later, from peer i, to which its
  -- vector of next indices reaches and gives 0 or 1. It then sends that peer, and no other, its whole
  -- log as the entries behind index 0, with the term of its first entry, and the peer's next index is
  -- 0. A follower with room for an answer and a first entry of another term, where its log and the
  -- leader's are shorter than 2^31, refuses what was sent, whatever its term: it sends one failure to
  -- the leader and nothing else of it changes.
  pub resend_refused :
      ⦃sm : StateMachine S⦄ (m : List ℤ) (next : List ℕ) (i : NodeId) (msg : AppendEntriesResponse)
      (s f : Server S) (c r q : ℕ) (first : LogEntry) (rest : List LogEntry)
      → s.state ≡ leader m next
      → msg.term ≤ s.current_term
      → msg.success ≡ false
      → i < length next
      → next_of next i ≤ 1
      → 0 < length s.log
      → length s.log < i32_size
      → 2 ≤ s.config.total_nodes
      → s.commit_index ≡ upto c
      → c ≤ length s.log
      → s.to_network.room ≡ suc r
      → f.log ≡ first ∷ rest
      → length f.log < i32_size
      → first.term ≢ term_at s.log 0
      → f.to_network.room ≡ suc q
      → let led =
          (handle_append_entries_response (peer i) (append_entries_response_type msg) s).1 in
        let retry = append_entries_type (resend 0 s) in
        (led.state ≡ leader m (written i 0 next))
        × (led.to_network.sent ≡ s.to_network.sent ++ record { dest = to_node i; msg = retry } ∷ [])
        × (handle_append_entries (peer s.id) retry f
            ≡ (ok tt, delivered (answer_to s.id f.current_term false) q f))
  resend_refused m next i msg s f c r q first rest role term failed inside near filled small nodes
        ci cl room e small_f other room_f =
      let at_start : next_of next i - 1 ≡ 0 = omega arith in
      let u = backed_off m next i 0 r s in
      let (kept, sent) = scan_keeps m (written i 0 next) u c refl filled nodes ci cl small in
      let went =
        handle_append_entries_response_refused m next i msg s r role term failed inside
          (omega arith) small room
        ∙ ap (λ n. (update_commit m >>= λ _. pure tt) (backed_off m next i n r s)) at_start in
      (
        ap (λ (o : Outcome (Unit {0}) × Server S). o.1.state) went ∙ kept,
        ap (λ (o : Outcome (Unit {0}) × Server S). o.1.to_network.sent) went ∙ sent,
        handle_append_entries_refuses s.id (resend 0 s) f q room_f
            (inr (first-Lacks s f.log first rest e small_f other)),
      )
