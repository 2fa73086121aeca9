-- ===== src/Cluster/Following.antt =====
-- A node that hears of entries from one other node only (src/server.rs).
use mini_raft.Prelude.{ap, sym, [], ◌++◌, ℕ, ◌≤◌, ◌≡◌, ◌⊎◌, inl, inr, List, length, u32_size}
use mini_raft.Protocol.{
  LogEntry, Message, append_entries_type, client_request_type, append_entries_response_type,
  request_vote_type, request_vote_response_type, client_response_type, hello_type,
  hello_client_type,
}
use mini_raft.StateMachine.{StateMachine}
use mini_raft.Server.State.{Server}
use mini_raft.Server.Append.Piece.{Extends}
use mini_raft.Server.Loop.{Event, run}
use mini_raft.Server.Steps.Loops.{AllHeard, AllHeard-mono}
use mini_raft.Server.Safety.Growth.{IsNoAppend, run-Extends}
use mini_raft.Server.Safety.Pieces.{IsPieceOf, HasPieces, Extends-trans, run-HasPieces, run-front}
use mini_raft.Cluster.{IsIn, AllOf-IsIn}

-- A message that holds no entries and is no client's request: heartbeats are such messages.
abbrev pub IsPlain : Message → Type 0
IsPlain (append_entries_type a) = a.entries ≡ []
IsPlain (client_request_type _) = ⊥
IsPlain _ = Unit

IsPieceOf-plain : (whole : List LogEntry) (msg : Message) → IsPlain msg → IsPieceOf whole msg
IsPieceOf-plain whole (append_entries_type a) h = ([], whole, ap (λ es. es ++ whole) (sym h))
IsPieceOf-plain whole (append_entries_response_type _) h = tt
IsPieceOf-plain whole (request_vote_type _) h = tt
IsPieceOf-plain whole (request_vote_response_type _) h = tt
IsPieceOf-plain whole (client_request_type _) h = h
IsPieceOf-plain whole (client_response_type _) h = tt
IsPieceOf-plain whole (hello_type _) h = tt
IsPieceOf-plain whole (hello_client_type _) h = tt

module _ {S : Type 0} ⦃m : StateMachine S⦄ where
  -- Log matching with one source. Node l, whose log has consecutive indices and which has sent pieces
  -- of it only, runs on any events but AppendEntries messages, as a leader does, and its log stays
  -- within 2^32 entries. Node f, whose log is a front of l's, runs on any timers and on messages that
  -- l has sent in its run, and on others, not a client's, that hold no entries, in any order, with
  -- repetition and loss. Then l's log and f's log have only grown, and f's is still a front of l's.
  pub run-follows :
      (now then : ℕ) (events heard : List Event) (l f : Server S)
      → AllHeard IsNoAppend events
      → HasPieces l
      → length (run now events l).1.log ≤ u32_size
      → Extends f.log l.log
      → AllHeard (λ msg. IsIn msg (run now events l).1.to_network.sent ⊎ IsPlain msg) heard
      → Extends l.log (run now events l).1.log
        × Extends f.log (run then heard f).1.log
        × Extends (run then heard f).1.log (run now events l).1.log
  run-follows now then events heard l f unheard pieces fits behind from =
      let l₁ = (run now events l).1 in
      let grown = run-Extends now events l unheard in
      let have = run-HasPieces now events l unheard pieces in
      let (longer, front_of) =
        run-front l₁.log (have.indexed fits) then heard f
          (AllHeard-mono (λ msg. IsIn msg l₁.to_network.sent ⊎ IsPlain msg) (IsPieceOf l₁.log) sound
            heard from)
          (Extends-trans f.log l.log l₁.log behind grown) in
      (grown, longer, front_of)
    where
      sound :
          (msg : Message)
          → IsIn msg (run now events l).1.to_network.sent ⊎ IsPlain msg
          → IsPieceOf (run now events l).1.log msg
      sound msg (inl h) =
          AllOf-IsIn (IsPieceOf (run now events l).1.log) msg _
            (HasPieces.pieces (run-HasPieces now events l unheard pieces)) h
      sound msg (inr h) = IsPieceOf-plain _ msg h
