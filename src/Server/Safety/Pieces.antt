-- ===== src/Server/Safety/Pieces.antt =====
-- The log of a node that receives pieces of one log only, and the pieces that a node sends (src/server.rs).
use mini_raft.Prelude.{
  ℕ, suc, ◌+◌, ◌≤◌, ◌≡◌, sym, ap, ◌∙◌, List, [], ◌∷◌, ◌++◌, append_assoc, append-nil, length,
  length-snoc, take, take-append-drop, AllOf, AllOf-mono, AllOf-append, as_u32_small, u32_size,
  arith,
}
use mini_raft.Protocol.{
  Message, append_entries_type, append_entries_response_type, request_vote_type,
  request_vote_response_type, client_request_type, client_response_type, hello_type,
  hello_client_type, LogEntry, Outgoing,
}
use mini_raft.StateMachine.{StateMachine}
use mini_raft.Server.State.{Server}
use mini_raft.Server.Append.Merge.{IsIndexedFrom}
use mini_raft.Server.Append.Piece.{Extends, IsPiece, merge_entries-Extends}
use mini_raft.Server.Loop.{Event, run}
use mini_raft.Server.Steps.{Write, sent, merged, pushed, IsOwn, Steps-kept}
use mini_raft.Server.Steps.Loops.{AllHeard}
use mini_raft.Server.Steps.Ends.{run-Steps}
use mini_raft.Server.Safety.Growth.{IsNoAppend}

-- A message that holds a piece of a log, or no entries at all; no client's request.
abbrev pub IsPieceOf : List LogEntry → Message → Type 0
IsPieceOf whole (append_entries_type a) = IsPiece whole a.entries
IsPieceOf whole (client_request_type _) = ⊥
IsPieceOf whole _ = Unit

pub Extends-trans : (a b c : List LogEntry) → Extends a b → Extends b c → Extends a c
Extends-trans a b c (x, e) (y, f) = (x ++ y, f ∙ ap (λ l. l ++ y) e ∙ append_assoc a x y)

module _ {S : Type 0} (whole : List LogEntry) (indexed : IsIndexedFrom 0 whole) where
  Write-front :
      (log : List LogEntry) (s t : Server S)
      → Write (IsPieceOf whole) s t
      → Extends log s.log × Extends s.log whole
      → Extends log t.log × Extends t.log whole
  Write-front log s t (merged a longer h le e) (g, front_of) =
      let (grows, stays) =
        merge_entries-Extends whole a.entries s.log longer indexed h front_of e in
      (Extends-trans log s.log longer g grows, stays)
  Write-front log s t (pushed request entry h of term index) g = absurd h
  Write-front log s t _ g = g

  -- A node whose log is a front of a log with consecutive indices, and that hears no client and of
  -- entries only pieces of that log, in whatever order and however often: after any run, whatever
  -- roles it took, its log has only grown and is still a front of that log.
  pub run-front :
      ⦃m : StateMachine S⦄ (now : ℕ) (events : List Event) (s : Server S)
      → AllHeard (IsPieceOf whole) events
      → Extends s.log whole
      → Extends s.log (run now events s).1.log × Extends (run now events s).1.log whole
  run-front now events s g front_of =
      Steps-kept (λ t. Extends s.log t.log × Extends t.log whole) (Write-front s.log)
        (run-Steps (IsPieceOf whole) now events s g) (([], sym (append-nil _)), front_of)

IsPieceOf-own :
    (term : ℕ) (log : List LogEntry) (msg : Message) → IsOwn term log msg → IsPieceOf log msg
IsPieceOf-own term log (append_entries_type a) (same, k, e) = (
  take k log,
  [],
  sym (take-append-drop k log) ∙ ap (λ l. take k log ++ l) (sym e ∙ sym (append-nil a.entries)),
)
IsPieceOf-own term log (append_entries_response_type _) w = tt
IsPieceOf-own term log (request_vote_type _) w = tt
IsPieceOf-own term log (request_vote_response_type _) w = tt
IsPieceOf-own term log (client_request_type _) w = w
IsPieceOf-own term log (client_response_type _) w = tt
IsPieceOf-own term log (hello_type _) w = tt
IsPieceOf-own term log (hello_client_type _) w = tt

IsPieceOf-grows :
    (log more : List LogEntry) (msg : Message) → IsPieceOf log msg → IsPieceOf (log ++ more) msg
IsPieceOf-grows log more (append_entries_type a) (front, back, e) = (
  front,
  back ++ more,
  ap (λ l. l ++ more) e
      ∙ append_assoc front (a.entries ++ back) more
      ∙ ap (λ l. front ++ l) (append_assoc a.entries back more),
)
IsPieceOf-grows log more (append_entries_response_type _) w = tt
IsPieceOf-grows log more (request_vote_type _) w = tt
IsPieceOf-grows log more (request_vote_response_type _) w = tt
IsPieceOf-grows log more (client_request_type _) w = w
IsPieceOf-grows log more (client_response_type _) w = tt
IsPieceOf-grows log more (hello_type _) w = tt
IsPieceOf-grows log more (hello_client_type _) w = tt

IsIndexedFrom-snoc :
    (q : ℕ) (log : List LogEntry) (e : LogEntry)
    → IsIndexedFrom q log
    → e.index ≡ q + length log
    → IsIndexedFrom q (log ++ e ∷ [])
IsIndexedFrom-snoc q [] e h at = (omega arith, tt)
IsIndexedFrom-snoc q (x ∷ xs) e h at = (h.0, IsIndexedFrom-snoc (suc q) xs e h.1 (omega arith))

-- What a node that receives no entries has sent are pieces of its log, and its log, as long as its
-- length is a u32, has consecutive indices.
pub record HasPieces {S : Type 0} (s : Server S) : Type 0 where
  pub indexed : length s.log ≤ u32_size → IsIndexedFrom 0 s.log
  pub pieces : AllOf (λ (o : Outgoing). IsPieceOf s.log o.msg) s.to_network.sent

module _ {S : Type 0} where
  Write-HasPieces : (s t : Server S) → Write IsNoAppend s t → HasPieces s → HasPieces t
  Write-HasPieces s t (sent o room w) g = record {
    indexed = g.indexed;
    pieces =
        AllOf-append (λ (q : Outgoing). IsPieceOf s.log q.msg) s.to_network.sent (o ∷ []) g.pieces
          (IsPieceOf-own s.current_term s.log o.msg w, tt);
  }
  Write-HasPieces s t (merged a longer h le e) g = absurd h
  Write-HasPieces s t (pushed request entry h of term index) g = record {
    indexed = λ le.
        let len = length-snoc s.log entry in
        IsIndexedFrom-snoc 0 s.log entry (g.indexed (omega (arith, len)))
          (index ∙ as_u32_small (length s.log) (omega (arith, len)) ∙ omega arith);
    pieces =
        AllOf-mono (λ (q : Outgoing). IsPieceOf s.log q.msg)
          (λ q. IsPieceOf (s.log ++ entry ∷ []) q.msg)
          (λ q w. IsPieceOf-grows s.log (entry ∷ []) q.msg w) s.to_network.sent g.pieces;
  }
  Write-HasPieces s t _ g = record { indexed = g.indexed; pieces = g.pieces }

  pub run-HasPieces :
      ⦃m : StateMachine S⦄ (now : ℕ) (events : List Event) (s : Server S)
      → AllHeard IsNoAppend events
      → HasPieces s
      → HasPieces (run now events s).1
  run-HasPieces now events s g h =
      Steps-kept HasPieces Write-HasPieces (run-Steps IsNoAppend now events s g) h
