-- ===== src/StateMachine/Laws.antt =====
-- The laws of the simple store (src/state_machine.rs): reading after a write, and what a delete
-- removes.
use text.Mathlib.Text.{◌==◌}
use text.Mathlib.TextEquality.{eq_iff}
use mini_raft.Prelude.{String, ◌≡◌, refl, true, Option, none, some, [], ◌∷◌, arith, if◌then◌else◌}
use mini_raft.StateMachine.{
  HashMap, get, remove, insert, SimpleStateMachine, new, apply_log, get_value, delete_key,
}

pub get-remove :
    (k j : String) (m : HashMap) → get j (remove k m) ≡ (if k == j then none else get j m)
unfolding get remove
get-remove k j [] = ground arith
get-remove k j ((i, v) ∷ m) = ground (arith, eq_iff k j, eq_iff i k, eq_iff i j, get-remove k j m)

pub get-insert :
    (k j : String) (v : String) (m : HashMap)
    → get j (insert k v m) ≡ (if k == j then some v else get j m)
unfolding get insert
get-insert k j v m = ground (arith, get-remove k j m)

-- A write of `key` always succeeds, is read back at `key`, and leaves every other key alone.
get_value-apply_log :
    (key value other : String) (s : SimpleStateMachine)
    → ((apply_log key value s).1 ≡ true)
      × (get_value other (apply_log key value s).0
          ≡ (if key == other then some value else get_value other s))
unfolding apply_log get_value
get_value-apply_log key value other s = (refl, get-insert key other value s.data_store)

-- A delete of `key` always succeeds, whether the key was there or not; the key is gone afterwards
-- and every other key is left alone.
get_value-delete_key :
    (key other : String) (s : SimpleStateMachine)
    → ((delete_key key s).1 ≡ true)
      × (get_value other (delete_key key s).0 ≡ (if key == other then none else get_value other s))
unfolding delete_key get_value
get_value-delete_key key other s = (refl, get-remove key other s.data_store)

-- The store as a map from keys to values.
abbrev pub view : SimpleStateMachine → String → Option String
view s key = get_value key s

abbrev pub with_value : String → Option String → (String → Option String) → String → Option String
with_value key value map other = if key == other then value else map other

-- The simple store implements a map: a new one has no keys, a write sets one key, a delete removes one
-- key, both always succeed, and a read gives what the map has.
pub store-refines_map :
    (key value : String) (s : SimpleStateMachine)
    → (view new ≡ λ _. none)
      × ((apply_log key value s).1 ≡ true)
      × (view (apply_log key value s).0 ≡ with_value key (some value) (view s))
      × ((delete_key key s).1 ≡ true)
      × (view (delete_key key s).0 ≡ with_value key none (view s))
unfolding new get_value get
store-refines_map key value s = (
  refl,
  (get_value-apply_log key value "" s).0,
  (λ i other. (get_value-apply_log key value other s).1 i),
  (get_value-delete_key key "" s).0,
  (λ i other. (get_value-delete_key key other s).1 i),
)
