-- ===== src/Server/Steps/Apply.antt =====
-- The writes of `apply_latest_commited_logs` (src/server.rs), and that its loop ends.
use mini_raft.Prelude.{
  ℕ, zero, suc, ◌<◌, ℤ, pos, negsuc, ◌<ℤ◌, ltb_ℤ, min_ℤ, inc_i32, dec_i32, as_i32, i32_size, ◌≡◌,
  refl, ap, ◌∙◌, Bool, true, false, Option, none, some, length, arith,
}
use mini_raft.Protocol.{LogCommand, LogEntry, Message}
use mini_raft.StateMachine.{StateMachine}
use mini_raft.Server.State.{Server}
use mini_raft.Server.Action.{Action}
use mini_raft.Server.Apply.{
  store_written, last_index, rounds_left, advance_commit, apply_command, apply_entry, apply_round,
  apply_entries, apply_latest_commited_logs,
}
use mini_raft.Server.Steps.{Steps, then_write, committed, applied, stored, StaysIn}
use mini_raft.Server.Steps.Rules.{Runs, after, given, needed, branch, done, failed}

pub last_index-small : (n : ℕ) (z : ℤ) → dec_i32 (as_i32 n) ≡ some z → z <ℤ pos i32_size
unfolding as_i32
last_index-small n z e = ground arith

min-StaysIn :
    (lc last commit : ℤ)
    → ltb_ℤ commit lc ≡ true
    → ltb_ℤ last (pos 0) ≡ false
    → last <ℤ pos i32_size
    → StaysIn commit (min_ℤ lc last)
min-StaysIn lc last commit a b c = ground arith

inc_i32-rounds_left :
    (l c z : ℤ) → ltb_ℤ l c ≡ true → inc_i32 l ≡ some z → suc (rounds_left z c) ≡ rounds_left l c
unfolding rounds_left
inc_i32-rounds_left (pos n) c z lt e = ground arith
inc_i32-rounds_left (negsuc zero) c z lt e = ground arith
inc_i32-rounds_left (negsuc (suc n)) c z lt e = ground arith

module _ {S : Type 0} {Heard : Message → Type 0} {s : Server S} where
  pub last_index-Runs : (t : Server S) → Steps Heard s t → Runs Heard s (last_index t)
  unfolding last_index
  last_index-Runs t h = needed (dec_i32 (as_i32 (length t.log))) h

  pub advance_commit-Runs :
      (c : ℤ) (t : Server S) → Steps Heard s t → Runs Heard s (advance_commit c t)
  unfolding advance_commit last_index
  advance_commit-Runs c t h =
      branch _ _ _ t
        (λ later. given (dec_i32 (as_i32 (length t.log))) _ h (λ last e.
          branch _ _ _ t (λ _. done h)
            (λ filled. done (
              then_write h (
                committed (min_ℤ c last)
                  (min-StaysIn c last t.commit_index later filled (last_index-small _ last e)))))))
        (λ _. done h)

-- A command writes the store only.
apply_command-indices :
    {S : Type 0} ⦃m : StateMachine S⦄ (c : LogCommand) (t : Server S)
    → ((apply_command c t).1.last_applied ≡ t.last_applied)
      × ((apply_command c t).1.commit_index ≡ t.commit_index)
unfolding apply_command store_written
apply_command-indices (LogCommand.set k v) t = (refl, refl)
apply_command-indices (LogCommand.delete k) t = (refl, refl)
apply_command-indices (LogCommand.get k) t = (refl, refl)

module _ {S : Type 0} ⦃m : StateMachine S⦄ {Heard : Message → Type 0} {s : Server S} where
  store_written-Runs :
      (x : S) (b : Bool) (t : Server S) → Steps Heard s t → Runs Heard s (store_written (x, b) t)
  unfolding store_written
  store_written-Runs x true t h = done (then_write h (stored x))
  store_written-Runs x false t h = failed (then_write h (stored x))

  apply_command-Runs :
      (c : LogCommand) (t : Server S) → Steps Heard s t → Runs Heard s (apply_command c t)
  unfolding apply_command
  apply_command-Runs (LogCommand.set k v) t h =
      let (x, b) = m.apply_log k v t.state_machine in store_written-Runs x b t h
  apply_command-Runs (LogCommand.delete k) t h =
      let (x, b) = m.delete_key k t.state_machine in store_written-Runs x b t h
  apply_command-Runs (LogCommand.get k) t h = done h

  apply_entry-Runs :
      (next : ℤ) (e : Option LogEntry) (rest : Action S (Unit {0})) (t : Server S)
      → Steps Heard s t
      → inc_i32 t.last_applied ≡ some next
      → ((u : Server S)
          → Steps Heard s u
          → u.last_applied ≡ next
          → u.commit_index ≡ t.commit_index
          → Runs Heard s (rest u))
      → Runs Heard s (apply_entry next e rest t)
  unfolding apply_entry
  apply_entry-Runs next none rest t h i k = done h
  apply_entry-Runs next (some e) rest t h i k =
      let (a, b) = apply_command-indices e.command t in
      after _ (apply_command-Runs e.command t h)
        (λ _ _ r. k _ (then_write r (applied next (ap inc_i32 a ∙ i))) refl b)

  apply_entries-Runs :
      (fuel : ℕ) (t : Server S)
      → Steps Heard s t
      → rounds_left t.last_applied t.commit_index < fuel
      → Runs Heard s (apply_entries fuel t)
  unfolding apply_entries apply_round
  apply_entries-Runs zero t h l = elim l [ ]
  apply_entries-Runs (suc fuel) t h l =
      branch _ _ _ t
        (λ (lt : ltb_ℤ t.last_applied t.commit_index ≡ true).
          given (inc_i32 t.last_applied) _ h (λ next i. apply_entry-Runs next _ _ t h i (λ u r a b.
            apply_entries-Runs fuel u r (
              omega (
                arith,
                ap (λ z. rounds_left z u.commit_index) a,
                ap (rounds_left next) b,
                inc_i32-rounds_left t.last_applied t.commit_index next lt i,
              )))))
        (λ _. done h)

  apply_all-Runs :
      (t : Server S)
      → Steps Heard s t
      → Runs Heard s (apply_entries (suc (rounds_left t.last_applied t.commit_index)) t)
  apply_all-Runs t h =
      apply_entries-Runs (suc (rounds_left t.last_applied t.commit_index)) t h (omega arith)

  pub apply_latest-Runs :
      (c : ℤ) (t : Server S) → Steps Heard s t → Runs Heard s (apply_latest_commited_logs c t)
  unfolding apply_latest_commited_logs
  apply_latest-Runs c t h = after _ (advance_commit-Runs c t h) (λ _ _ r. apply_all-Runs _ r)
