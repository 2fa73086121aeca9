-- ===== src/Server/Safety/Growth.antt =====
-- The log of a node that receives no AppendEntries message (src/server.rs), as a leader's log does
-- not change but for what clients ask.
use mini_raft.Prelude.{sym, ap, ◌∙◌, List, [], ◌∷◌, ◌++◌, append_assoc, append-nil, ℕ}
use mini_raft.Protocol.{Message, append_entries_type, LogEntry}
use mini_raft.StateMachine.{StateMachine}
use mini_raft.Server.State.{Server}
use mini_raft.Server.Append.Piece.{Extends}
use mini_raft.Server.Loop.{Event, run}
use mini_raft.Server.Steps.{Write, merged, pushed, Steps-kept}
use mini_raft.Server.Steps.Loops.{AllHeard}
use mini_raft.Server.Steps.Ends.{run-Steps}

abbrev pub IsNoAppend : Message → Type 0
IsNoAppend (append_entries_type _) = ⊥
IsNoAppend _ = Unit

module _ {S : Type 0} where
  Write-Extends :
      (log : List LogEntry) (s t : Server S)
      → Write IsNoAppend s t
      → Extends log s.log
      → Extends log t.log
  Write-Extends log s t (merged a longer h le e) g = absurd h
  Write-Extends log s t (pushed request entry h of term index) (more, e) =
      (more ++ entry ∷ [], ap (λ l. l ++ entry ∷ []) e ∙ append_assoc log more _)
  Write-Extends log s t _ g = g

  -- A node that receives no AppendEntries message, whatever else it hears and whatever roles it
  -- takes, only appends to its log: after any run its old log is the front of the new one.
  pub run-Extends :
      ⦃m : StateMachine S⦄ (now : ℕ) (events : List Event) (s : Server S)
      → AllHeard IsNoAppend events
      → Extends s.log (run now events s).1.log
  run-Extends now events s g =
      Steps-kept (λ t. Extends s.log t.log) (Write-Extends s.log)
        (run-Steps IsNoAppend now events s g) ([], sym (append-nil _))
