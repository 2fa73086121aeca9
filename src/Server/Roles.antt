-- ===== src/Server/Roles.antt =====
-- The changes of role: `become_follower`, `become_candidate`, `become_leader` (src/server.rs).
use mini_raft.Prelude.{
  ℕ, ◌+◌, ℤ, pos, negsuc, some, none, replicate, ltb_ℤ, as_usize, add_u32, if◌then◌else◌,
}
use mini_raft.Server.State.{follower, leader}
use mini_raft.Server.Action.{Action, ◌>>=◌, or_panic, modify_state, self}

-- `last_applied as u64 + 1`, or 0 where nothing is applied.
unfoldable pub first_next_index : ℤ → ℕ
first_next_index last_applied = if ltb_ℤ last_applied (pos 0) then 0 else as_usize last_applied + 1

module _ {S : Type 0} where
  unfoldable pub become_follower : ℕ → Action S (Unit {0})
  become_follower term =
      modify_state λ t. record t { current_term = term; state = follower; voted_for = none }

  -- What it does beside this is logging.
  unfoldable pub become_follower_if_higher_term : ℕ → Action S (Unit {0})
  unfolding become_follower
  become_follower_if_higher_term term = become_follower term

  -- `now` is `Instant::now()`.
  unfoldable pub become_candidate : ℕ → Action S (Unit {0})
  become_candidate now = do
    s ← self
    term ← or_panic (add_u32 s.current_term 1)
    modify_state λ t. record t { current_term = term; last_heartbeat = now; voted_for = some s.id }

  unfoldable pub become_leader : Action S (Unit {0})
  unfolding first_next_index
  become_leader = do
    s ← self
    modify_state λ t. record t {
      state =
          leader (replicate (s.config.total_nodes + 1) (negsuc 0))
            (replicate (s.config.total_nodes + 1) (first_next_index t.last_applied));
    }
