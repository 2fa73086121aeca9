-- ===== src/StateMachine.antt =====
-- The replicated store: the trait `StateMachine` as an interface, and the one implementation of it,
-- `SimpleStateMachine` (src/state_machine.rs). A method on `&self` that writes through the lock
-- takes the store and returns it. The lock is never poisoned: nothing panics while it is held.
pub mod Laws
use text.Mathlib.Text.{◌==◌}
use mini_raft.Prelude.{String, Bool, true, Option, none, some, List, [], ◌∷◌, if◌then◌else◌}

-- The trait. The flag of a write is `false` for an `Err`.
pub record StateMachine (S : Type 0) : Type 0 where
  pub apply_log : String → String → S → S × Bool
  pub get_value : String → S → Option String
  pub delete_key : String → S → S × Bool

-- What the standard `HashMap` does for the store: at most one value for a key.
abbrev pub HashMap : Type 0
HashMap = List (String × String)

unfoldable pub get : String → HashMap → Option String
get k [] = none
get k ((j, v) ∷ m) = if j == k then some v else get k m

unfoldable pub remove : String → HashMap → HashMap
remove k [] = []
remove k ((j, v) ∷ m) = let rest = remove k m in if j == k then rest else (j, v) ∷ rest

unfoldable pub insert : String → String → HashMap → HashMap
unfolding remove
insert k v m = (k, v) ∷ remove k m

-- `SimpleStateMachine`.
pub record SimpleStateMachine : Type 0 where
  pub data_store : HashMap

unfoldable pub new : SimpleStateMachine
new = record { data_store = [] }

unfoldable pub apply_log : String → String → SimpleStateMachine → SimpleStateMachine × Bool
unfolding insert
apply_log key value s = (record s { data_store = insert key value s.data_store }, true)

unfoldable pub get_value : String → SimpleStateMachine → Option String
unfolding get
get_value key s = get key s.data_store

unfoldable pub delete_key : String → SimpleStateMachine → SimpleStateMachine × Bool
unfolding remove
delete_key key s = (record s { data_store = remove key s.data_store }, true)

-- `impl StateMachine for SimpleStateMachine`.
instance abbrev pub simple_state_machine : StateMachine SimpleStateMachine
simple_state_machine = record {
  apply_log = apply_log;
  get_value = get_value;
  delete_key = delete_key;
}
