-- ===== src/Server/Apply.antt =====
-- `apply_latest_commited_logs` (src/server.rs): the commit index is advanced as far as the log
-- reaches, and every committed entry that is not yet applied goes to the store.
pub mod Replay
use mini_raft.Prelude.{
  ℕ, zero, suc, ◌+◌, ◌-◌, ℤ, pos, pos_part, neg_part, ltb_ℤ, min_ℤ, as_i32, as_usize, inc_i32,
  dec_i32, Bool, Option, none, some, length, get_elem?, if◌then◌else◌,
}
use mini_raft.Protocol.{LogCommand, LogEntry}
use mini_raft.StateMachine.{StateMachine}
use mini_raft.Server.Action.{
  Action, ok, err, Error, pure, stuck, or_panic, ◌>>=◌, ◌>>◌, modify_state, self,
}

module _ {S : Type 0} where
  -- `self.log.len() as i32 - 1`
  unfoldable pub last_index : Action S ℤ
  last_index = do s ← self; or_panic (dec_i32 (as_i32 (length s.log)))

  unfoldable pub advance_commit : ℤ → Action S (Unit {0})
  unfolding last_index
  advance_commit leader_commit = do
    s ← self
    if ltb_ℤ s.commit_index leader_commit
        then (do
          last_idx ← last_index
          if ltb_ℤ last_idx (pos 0)
              then pure tt
              else modify_state λ t. record t { commit_index = min_ℤ leader_commit last_idx })
        else pure tt

  -- The `?` after a write to the store.
  unfoldable pub store_written : S × Bool → Action S (Unit {0})
  store_written (store, done) s = (
    if done then ok tt else err Error.apply_failed,
    record s { inner = record s.inner { state_machine = store } },
  )

-- How many indices there are after the first argument, up to the second.
unfoldable pub rounds_left : ℤ → ℤ → ℕ
rounds_left last_applied commit_index =
    (pos_part commit_index + neg_part last_applied)
    - (pos_part last_applied + neg_part commit_index)

module _ {S : Type 0} ⦃m : StateMachine S⦄ where
  unfoldable pub apply_command : LogCommand → Action S (Unit {0})
  unfolding store_written
  apply_command (LogCommand.set key value) s =
      store_written (m.apply_log key value s.state_machine) s
  apply_command (LogCommand.delete key) s = store_written (m.delete_key key s.state_machine) s
  apply_command (LogCommand.get key) s = (ok tt, s)

  -- The entry that is next, and then the rest of the rounds: `None` of `self.log.get` breaks out of it.
  unfoldable pub apply_entry : ℤ → Option LogEntry → Action S (Unit {0}) → Action S (Unit {0})
  unfolding apply_command
  apply_entry next none rest = pure tt
  apply_entry next (some log) rest = do
    apply_command log.command
    modify_state λ t. record t { last_applied = next }
    rest

  -- The `while`: one round, and the rest of them.
  unfoldable pub apply_round : Action S (Unit {0}) → Action S (Unit {0})
  unfolding apply_entry
  apply_round rest = do
    s ← self
    if ltb_ℤ s.last_applied s.commit_index
        then (do
          next ← or_panic (inc_i32 s.last_applied)
          apply_entry next (get_elem? s.log (as_usize next)) rest)
        else pure tt

  unfoldable pub apply_entries : ℕ → Action S (Unit {0})
  unfolding apply_round
  apply_entries zero = stuck
  apply_entries (suc fuel) = apply_round (apply_entries fuel)

  -- One round for each index to apply and one to leave are enough fuel.
  unfoldable pub apply_latest_commited_logs : ℤ → Action S (Unit {0})
  unfolding advance_commit apply_entries rounds_left
  apply_latest_commited_logs leader_commit = do
    advance_commit leader_commit
    s ← self
    apply_entries (suc (rounds_left s.last_applied s.commit_index))
