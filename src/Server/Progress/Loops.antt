-- ===== src/Server/Progress/Loops.antt =====
-- The loops of the three roles and `run` (src/server.rs), over any list of events.
use mini_raft.Prelude.{ℕ, List}
use mini_raft.StateMachine.{StateMachine}
use mini_raft.Server.State.{Server}
use mini_raft.Server.Loop.{Event, run}
use mini_raft.Server.Steps.Ends.{run-Steps, heard_anything}
use mini_raft.Server.Progress.{Later, Steps-Later}

module _ {S : Type 0} ⦃m : StateMachine S⦄ where
  -- Whatever messages and timers come, and however the run of a node ends, the node keeps its id and
  -- its configuration, its term is not lower at the end, and the messages it had sent before are
  -- still the first of those that it has sent.
  pub run-Later : (now : ℕ) (events : List Event) (s : Server S) → Later s (run now events s).1
  run-Later now events s = Steps-Later (run-Steps (λ _. Unit) now events s (heard_anything events))
