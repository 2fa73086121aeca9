-- ===== src/Server/Apply/Replay.antt =====
-- The store that `apply_latest_commited_logs` leaves (src/server.rs), against the plain meaning of
-- the log: the commands of its first entries, run one after the other.
use mini_raft.Prelude.{
  if◌then◌else◌, ℕ, zero, suc, ◌-◌, ◌≤◌, ◌<◌, ℤ, pos, negsuc, ltb_ℤ, ◌≡◌, refl, ◌∙◌, sym, ap,
  i32_size, true, some, List, [], ◌∷◌, length, get_elem?, take, dec_lt, max, min, get_elem?-some,
  as_i32_small, dec_i32, min_ℤ, String, arith,
}
use mini_raft.Protocol.{LogCommand, LogEntry}
use mini_raft.StateMachine.{StateMachine}
use mini_raft.Server.State.{Server}
use mini_raft.Server.Action.{Action, Outcome, ok, or_panic, resume}
use mini_raft.Server.Apply.{
  last_index, rounds_left, advance_commit, apply_command, apply_entry, apply_round, apply_entries,
  apply_latest_commited_logs,
}

-- The index of the last of the first k entries, -1 for none.
abbrev pub upto : ℕ → ℤ
upto zero = negsuc 0
upto (suc n) = pos n

-- A store whose writes do not fail.
pub record IsReliable {S : Type 0} (m : StateMachine S) : Type 0 where
  pub apply_log_ok : (k v : String) (s : S) → (m.apply_log k v s).1 ≡ true
  pub delete_key_ok : (k : String) (s : S) → (m.delete_key k s).1 ≡ true

module _ {S : Type 0} (m : StateMachine S) where
  -- What a command does to the store.
  abbrev pub run_command : LogCommand → S → S
  run_command (LogCommand.set k v) s = (m.apply_log k v s).0
  run_command (LogCommand.delete k) s = (m.delete_key k s).0
  run_command (LogCommand.get k) s = s

  unfoldable pub replay : List LogEntry → S → S
  replay [] s = s
  replay (e ∷ es) s = replay es (run_command e.command s)

pub replay-take_zero :
    {S : Type 0} (m : StateMachine S) (log : List LogEntry) (s : S) → replay m (take 0 log) s ≡ s
unfolding replay
replay-take_zero m log s = refl

module _ {S : Type 0} ⦃m : StateMachine S⦄ (reliable : IsReliable m) where
  replay-take-suc :
      (k : ℕ) (log : List LogEntry) {e : LogEntry} (s : S)
      → get_elem? log k ≡ some e
      → replay m (take (suc k) log) s ≡ run_command m e.command (replay m (take k log) s)
  unfolding replay
  replay-take-suc k [] s h = ground arith
  replay-take-suc zero (x ∷ log) s h = ground arith
  replay-take-suc (suc k) (x ∷ log) s h = replay-take-suc k log (run_command m x.command s) h

  apply_command_ok :
      (c : LogCommand) (s : Server S)
      → apply_command c s ≡ (
        ok tt,
        record s { inner = record s.inner { state_machine = run_command m c s.state_machine } },
      )
  unfolding apply_command
  apply_command_ok (LogCommand.set k v) s = rw (reliable.apply_log_ok k v s.state_machine)
  apply_command_ok (LogCommand.delete k) s = rw (reliable.delete_key_ok k s.state_machine)
  apply_command_ok (LogCommand.get k) s = refl

  apply_round_step :
      (k c : ℕ) (e : LogEntry) (s : Server S) (rest : Action S (Unit {0}))
      → s.last_applied ≡ upto k
      → s.commit_index ≡ upto c
      → k < c
      → k < i32_size
      → get_elem? s.log k ≡ some e
      → apply_round rest s
        ≡ rest (record s {
          inner = record s.inner {
            last_applied = pos k;
            state_machine = run_command m e.command s.state_machine;
          };
        })
  unfolding apply_round apply_entry
  apply_round_step zero c e s rest a b lt small found = ground (arith, apply_command_ok e.command s)
  apply_round_step (suc k) c e s rest a b lt small found =
      ground (arith, apply_command_ok e.command s)

  apply_round_stop :
      (c : ℕ) (s : Server S) (rest : Action S (Unit {0}))
      → s.last_applied ≡ upto c
      → s.commit_index ≡ upto c
      → apply_round rest s ≡ (ok tt, s)
  unfolding apply_round
  apply_round_stop c s rest a b = ground arith

  apply_entries-replay :
      (fuel k c : ℕ) (s : Server S) (start : S)
      → s.last_applied ≡ upto k
      → s.commit_index ≡ upto c
      → k ≤ c
      → c ≤ length s.log
      → length s.log < i32_size
      → s.state_machine ≡ replay m (take k s.log) start
      → c - k < fuel
      → apply_entries fuel s ≡ (
        ok tt,
        record s {
          inner = record s.inner {
            last_applied = upto c;
            state_machine = replay m (take c s.log) start;
          };
        },
      )
  unfolding apply_entries
  apply_entries-replay zero k c s start a b kc cl small r h = elim h [ ]
  apply_entries-replay (suc fuel) k c s start a b kc cl small r h = elim (dec_lt k c) [
    | no ge ↦
        let e : k ≡ c = omega arith in
        apply_round_stop c s (apply_entries fuel) (a ∙ ap upto e) b ∙ (λ i. (
          ok tt,
          record s {
            inner = record s.inner {
              last_applied = (a ∙ ap upto e) i;
              state_machine = (r ∙ ap (λ j. replay m (take j s.log) start) e) i;
            };
          },
        ))
    | yes lt ↦
        let (e, found) = get_elem?-some s.log k (omega arith) in
        apply_round_step k c e s (apply_entries fuel) a b lt (omega arith) found
        ∙ apply_entries-replay fuel (suc k) c _ start refl b lt cl small
            (ap (run_command m e.command) r ∙ sym (replay-take-suc k s.log start found))
            (omega arith)
  ]

-- How many entries an integer index counts, itself included.
abbrev pub count_to : ℤ → ℕ
count_to (pos n) = suc n
count_to (negsuc n) = 0

-- How many entries are committed once the leader's commit index is known.
abbrev pub committed : ℤ → ℕ → ℕ → ℕ
committed leader_commit len c = max c (min (count_to leader_commit) len)

pub last_index_lem :
    {S : Type 0} (s : Server S)
    → length s.log < i32_size
    → last_index s ≡ (ok (upto (length s.log)), s)
unfolding last_index
last_index_lem s small = rw (as_i32_small (length s.log) small) (below (length s.log))
  where
    below : (n : ℕ) → or_panic (dec_i32 (pos n)) s ≡ (ok (upto n), s)
    below zero = refl
    below (suc n) = refl

-- The commit index that `advance_commit` leaves, given the last index of the log.
abbrev clamped : ℤ → ℤ → ℤ → ℤ
clamped lc last commit_index =
    if ltb_ℤ commit_index lc
    then (if ltb_ℤ last (pos 0) then commit_index else min_ℤ lc last)
    else commit_index

advance_commit-clamped :
    {S : Type 0} (lc : ℤ) (s : Server S)
    → length s.log < i32_size
    → advance_commit lc s ≡ (
      ok tt,
      record s {
        inner = record s.inner { commit_index = clamped lc (upto (length s.log)) s.commit_index };
      },
    )
unfolding advance_commit
advance_commit-clamped lc s small = ground (arith, last_index_lem s small)

clamped-upto :
    (lc : ℤ) (len c : ℕ) → c ≤ len → clamped lc (upto len) (upto c) ≡ upto (committed lc len c)
clamped-upto (negsuc n) zero zero h = ground arith
clamped-upto (negsuc n) (suc len) zero h = ground arith
clamped-upto (negsuc n) zero (suc c) h = ground arith
clamped-upto (negsuc n) (suc len) (suc c) h = ground arith
clamped-upto (pos n) zero zero h = ground arith
clamped-upto (pos n) (suc len) zero h = ground arith
clamped-upto (pos n) zero (suc c) h = ground arith
clamped-upto (pos n) (suc len) (suc c) h = ground arith

rounds_left-upto : (k c : ℕ) → rounds_left (upto k) (upto c) ≡ c - k
unfolding rounds_left
rounds_left-upto zero zero = omega arith
rounds_left-upto zero (suc c) = omega arith
rounds_left-upto (suc k) zero = omega arith
rounds_left-upto (suc k) (suc c) = omega arith

-- On a store whose writes succeed and that holds the first k entries of the log, run on `start`,
-- with the commit index at c entries, k ≤ c ≤ the log's length < 2^31: the call ends well, the
-- commit index goes to the leader's or to the end of the log, whichever comes first, but never back;
-- everything committed is applied, so the store holds exactly the committed entries, run in order on
-- `start`; and nothing else of the server changes.
pub apply_latest_commited_logs-replay :
    {S : Type 0} ⦃m : StateMachine S⦄ (reliable : IsReliable m) (lc : ℤ) (k c : ℕ) (s : Server S)
    (start : S)
    → s.last_applied ≡ upto k
    → s.commit_index ≡ upto c
    → k ≤ c
    → c ≤ length s.log
    → length s.log < i32_size
    → s.state_machine ≡ replay m (take k s.log) start
    → let d = committed lc (length s.log) c in
      apply_latest_commited_logs lc s ≡ (
        ok tt,
        record s {
          inner = record s.inner {
            commit_index = upto d;
            last_applied = upto d;
            state_machine = replay m (take d s.log) start;
          };
        },
      )
unfolding apply_latest_commited_logs
apply_latest_commited_logs-replay ⦃m⦄ reliable lc k c s start a b kc cl small r =
    ap
      (λ (q : Outcome (Unit {0}) × Server _).
        resume q.0 (λ _ t. apply_entries (suc (rounds_left t.last_applied t.commit_index)) t) q.1)
      (advance_commit-clamped lc s small
        ∙ ap (λ z. (ok tt, record s { inner = record s.inner { commit_index = z } }))
            (ap (clamped lc (upto (length s.log))) b ∙ clamped-upto lc (length s.log) c cl))
    ∙ apply_entries-replay reliable
        (suc (rounds_left s.last_applied (upto (committed lc (length s.log) c)))) k
        (committed lc (length s.log) c) _ start a refl (omega arith) (omega arith) small r
        (omega (
          arith,
          ap (λ z. rounds_left z (upto (committed lc (length s.log) c))) a,
          rounds_left-upto k (committed lc (length s.log) c),
        ))
