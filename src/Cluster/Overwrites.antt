-- ===== src/Cluster/Overwrites.antt =====
-- An entry that a leader sends from the middle of a follower's log (`handle_append_entries`,
-- src/server.rs).
use mini_raft.Prelude.{
  ℕ, zero, suc, ◌+◌, ◌≤◌, ◌<◌, i32_size, ◌≡◌, ◌≢◌, refl, sym, ap, subst, ◌∙◌, ◌⊎◌, true, String,
  List, [], ◌∷◌, ◌++◌, length, replicate, length-replicate, take, drop, ne→not-==, eq→==,
  get_elem?-some, get_elem?-append_left, take-append_length, drop-append_length, length-append,
  AllOf, arith,
}
use mini_raft.Protocol.{NodeId, LogEntry, AppendEntries, append_entries_type, peer}
use mini_raft.StateMachine.{StateMachine}
use mini_raft.Server.State.{Server, follower}
use mini_raft.Server.Apply.Replay.{upto, committed, replay, IsReliable}
use mini_raft.Server.Append.{prev_log_matches, handle_append_entries}
use mini_raft.Server.Append.Merge.{splice, IsIndexedFrom}
use mini_raft.Server.Append.Replies.{handle_append_entries_lem}
use mini_raft.Server.Client.Sent.{before, term_before, next_of, TracksAll}
use mini_raft.Server.Roles.{first_next_index}
use mini_raft.Cluster.Replication.{term_at}

pub next_of-replicate : (n a i : ℕ) → i < n → next_of (replicate n a) i ≡ a
next_of-replicate zero a i h = absurd (omega arith)
next_of-replicate (suc n) a zero h = refl
next_of-replicate (suc n) a (suc i) h = next_of-replicate n a i (omega arith)

pub first_next_index-upto : (n : ℕ) → first_next_index (upto n) ≡ n
unfolding first_next_index
first_next_index-upto zero = refl
first_next_index-upto (suc n) = ground arith

-- A leader whose vectors have an entry for each node, the next one being n, tracks every peer.
pub TracksAll-replicate :
    {S : Type 0} (total n : ℕ) (s : Server S) (ps : List (NodeId × String))
    → AllOf (λ q. q.0 ≤ total) ps
    → n ≤ length s.log
    → length s.last_sent_index ≡ total + 1
    → TracksAll (replicate (total + 1) n) s ps
TracksAll-replicate total n s [] h le marks = tt
TracksAll-replicate total n s ((p, a) ∷ ps) (h, hs) le marks = (
  λ _. (
    omega (arith, length-replicate (total + 1) n),
    omega (arith, next_of-replicate (total + 1) n p (omega arith)),
    omega arith,
  ),
  TracksAll-replicate total n s ps hs le marks,
)

-- The end of a log matches a longer one, as the sender of another longer one describes it.
prefix_matches :
    (log more more' : List LogEntry) (msg : AppendEntries)
    → 0 < length log
    → msg.prev_log_index ≡ before (length log)
    → msg.prev_log_term ≡ term_before (log ++ more') (length log)
    → prev_log_matches msg (log ++ more) ≡ true
unfolding prev_log_matches
prefix_matches [] more more' msg filled index term = absurd (omega arith)
prefix_matches (x ∷ xs) more more' msg filled index term =
    let (e, found) = get_elem?-some (x ∷ xs) (length xs) (omega arith) in
    let same : msg.prev_log_term ≡ e.term =
      term ∙ ap term_at (get_elem?-append_left (x ∷ xs) more' (length xs) (omega arith) ∙ found) in
    rw
      (
        prev_log_matches,
        index,
        get_elem?-append_left (x ∷ xs) more (length xs) (omega arith),
        found,
      )
      (eq→== e.term msg.prev_log_term (sym same))

splice_differs :
    (x e : LogEntry) (xs : List LogEntry) → x.term ≢ e.term → splice (x ∷ xs) (e ∷ []) ≡ e ∷ []
unfolding splice
splice_differs x e xs ne = rw (ne→not-== x.term e.term ne) refl

splice_past :
    (log xs : List LogEntry) (x e : LogEntry)
    → x.term ≢ e.term
    → take (length log) (log ++ x ∷ xs) ++ splice (drop (length log) (log ++ x ∷ xs)) (e ∷ [])
      ≡ log ++ e ∷ []
splice_past log xs x e ne =
    rw (take-append_length log (x ∷ xs), drop-append_length log (x ∷ xs))
      (ap (λ l. log ++ l) (splice_differs x e xs ne))

committed_before : (n len c : ℕ) → n ≤ c → committed (upto n) len c ≡ c
committed_before zero len c le = omega arith
committed_before (suc n) len c le = omega arith

module _ {S : Type 0} ⦃m : StateMachine S⦄ (reliable : IsReliable m) where
  -- An entry behind the log that two nodes share takes the place of all that the follower has there,
  -- committed and applied or not.
  pub entry_replaces :
      (node : NodeId) (msg : AppendEntries) (log xs more : List LogEntry) (e x : LogEntry)
      (f : Server S) (c r : ℕ) (start : S)
      → 0 < length log
      → msg.entries ≡ e ∷ []
      → e.index ≡ length log
      → msg.prev_log_index ≡ before (length log)
      → msg.prev_log_term ≡ term_before (log ++ more) (length log)
      → msg.leader_commit ≡ upto (length log)
      → (msg.term ≡ f.current_term) ⊎ ((f.current_term < msg.term) × (f.state ≡ follower))
      → f.log ≡ log ++ x ∷ xs
      → x.term ≢ e.term
      → f.last_applied ≡ upto c
      → f.commit_index ≡ upto c
      → length log ≤ c
      → c ≤ length f.log
      → length f.log < i32_size
      → f.state_machine ≡ replay m (take c f.log) start
      → f.to_network.room ≡ suc r
      → let taken = (handle_append_entries (peer node) (append_entries_type msg) f).1 in
        (taken.log ≡ log ++ e ∷ [])
        × (taken.last_applied ≡ upto c)
        × (taken.state_machine ≡ f.state_machine)
  entry_replaces node msg log xs more e x f c r start filled new at index term known who same
        differs la ci nc inside small store room =
      let all =
        handle_append_entries_lem reliable node msg f (length log) c c r start who
          (subst (λ l. prev_log_matches msg l ≡ true) (sym same)
            (prefix_matches log (x ∷ xs) more msg filled index term))
          (λ q. cc (q, new)) (subst (IsIndexedFrom (length log)) (sym new) (at, tt))
          (omega (arith, ap length same, length-append log (x ∷ xs))) la ci (omega arith) inside
          small store room in
      let kept : committed msg.leader_commit (length f.log) c ≡ c =
        ap (λ z. committed z (length f.log) c) known
        ∙ committed_before (length log) (length f.log) c nc in
      (
        ap (λ q. q.1.log) all
            ∙ ap (λ es. take (length log) f.log ++ splice (drop (length log) f.log) es) new
            ∙ ap (λ l. take (length log) l ++ splice (drop (length log) l) (e ∷ [])) same
            ∙ splice_past log xs x e differs,
        ap (λ q. q.1.last_applied) all ∙ ap upto kept,
        ap (λ q. q.1.state_machine) all ∙ ap (λ d. replay m (take d f.log) start) kept ∙ sym store,
      )
