-- ===== src/Server/Safety/Terms.antt =====
-- The terms in the log of a server and in its messages (src/server.rs).
use mini_raft.Prelude.{
  ℕ, ◌≤◌, ◌≡◌, refl, sym, subst, some, List, [], ◌∷◌, AllOf, AllOf-mono, AllOf-append, AllOf-drop,
  arith,
}
use mini_raft.Protocol.{
  LogEntry, Message, append_entries_type, append_entries_response_type, request_vote_type,
  request_vote_response_type, client_request_type, client_response_type, hello_type,
  hello_client_type, Outgoing,
}
use mini_raft.StateMachine.{StateMachine}
use mini_raft.Server.State.{Server}
use mini_raft.Server.Append.Kept.{merge_entries-AllOf}
use mini_raft.Server.Loop.{Event, run}
use mini_raft.Server.Steps.{
  Write, sent, limited, raised, followed, stood, merged, pushed, Write-term, Steps-kept, IsOwn,
  term_of,
}
use mini_raft.Server.Steps.Loops.{AllHeard}
use mini_raft.Server.Steps.Ends.{run-Steps}

abbrev pub IsUpTo : ℕ → LogEntry → Type 0
IsUpTo term e = e.term ≤ term

-- The entries of a message are of its own term or of earlier ones.
abbrev pub IsSound : Message → Type 0
IsSound (append_entries_type a) = AllOf (IsUpTo a.term) a.entries
IsSound _ = Unit

-- A sound message of a term or of an earlier one, or of no term.
abbrev pub IsSentBy : ℕ → Outgoing → Type 0
IsSentBy term o = IsSound o.msg × ((n : ℕ) → term_of o.msg ≡ some n → n ≤ term)

pub record HasTerms {S : Type 0} (s : Server S) : Type 0 where
  pub entries : AllOf (IsUpTo s.current_term) s.log
  pub sent : AllOf (IsSentBy s.current_term) s.to_network.sent

IsUpTo-later : (m n : ℕ) → m ≤ n → (es : List LogEntry) → AllOf (IsUpTo m) es → AllOf (IsUpTo n) es
IsUpTo-later m n le es h = AllOf-mono (IsUpTo m) (IsUpTo n) (λ e l. omega arith) es h

IsSentBy-later :
    (m n : ℕ) → m ≤ n → (os : List Outgoing) → AllOf (IsSentBy m) os → AllOf (IsSentBy n) os
IsSentBy-later m n le os h =
    AllOf-mono (IsSentBy m) (IsSentBy n) (λ o g. (g.0, λ k e. omega (arith, g.1 k e))) os h

own_term : (t n m : ℕ) → t ≡ m → some t ≡ some n → n ≤ m
own_term t n m e f = ground arith

-- A node whose log has no later terms than its own sends sound messages.
IsOwn-IsSentBy :
    (term : ℕ) (log : List LogEntry) (msg : Message)
    → AllOf (IsUpTo term) log
    → IsOwn term log msg
    → IsSound msg × ((n : ℕ) → term_of msg ≡ some n → n ≤ term)
IsOwn-IsSentBy term log (append_entries_type a) h (same, k, e) = (
  subst (AllOf (IsUpTo a.term)) (sym e)
      (AllOf-drop (IsUpTo a.term) k log (subst (λ n. AllOf (IsUpTo n) log) (sym same) h)),
  λ n q. own_term a.term n term same q,
)
IsOwn-IsSentBy term log (append_entries_response_type a) h w =
    (tt, λ n q. own_term a.term n term w q)
IsOwn-IsSentBy term log (request_vote_type a) h w = (tt, λ n q. own_term a.term n term w q)
IsOwn-IsSentBy term log (request_vote_response_type a) h w = (tt, λ n q. own_term a.term n term w q)
IsOwn-IsSentBy term log (client_request_type _) h w = absurd w
IsOwn-IsSentBy term log (client_response_type _) h w = (tt, λ n q. cc q)
IsOwn-IsSentBy term log (hello_type _) h w = absurd w
IsOwn-IsSentBy term log (hello_client_type _) h w = absurd w

module _ {S : Type 0} where
  -- A write of neither the log nor the channel, to no earlier term.
  later_terms :
      (s t : Server S)
      → HasTerms s
      → s.current_term ≤ t.current_term
      → t.log ≡ s.log
      → t.to_network ≡ s.to_network
      → HasTerms t
  later_terms s t h le log net = record {
    entries =
        subst (AllOf (IsUpTo t.current_term)) (sym log)
          (IsUpTo-later s.current_term t.current_term le s.log h.entries);
    sent =
        subst (λ n. AllOf (IsSentBy t.current_term) n.sent) (sym net)
          (IsSentBy-later s.current_term t.current_term le s.to_network.sent h.sent);
  }

  pub Write-HasTerms : (s t : Server S) → Write IsSound s t → HasTerms s → HasTerms t
  Write-HasTerms s t (sent o room w) h = record {
    entries = h.entries;
    sent =
        AllOf-append (IsSentBy s.current_term) s.to_network.sent (o ∷ []) h.sent
          (IsOwn-IsSentBy s.current_term s.log o.msg h.entries w, tt);
  }
  Write-HasTerms s t (limited room) h = record { entries = h.entries; sent = h.sent }
  Write-HasTerms s t (merged a log g le e) h = record {
    entries =
        merge_entries-AllOf (IsUpTo s.current_term) a.entries s.log log
          (IsUpTo-later a.term s.current_term le a.entries g) h.entries e;
    sent = h.sent;
  }
  Write-HasTerms s t (pushed request entry g of term index) h = record {
    entries = AllOf-append (IsUpTo s.current_term) s.log (entry ∷ []) h.entries (omega arith, tt);
    sent = h.sent;
  }
  Write-HasTerms s t (raised msg term g e le) h = later_terms s t h le refl refl
  Write-HasTerms s t (followed msg term g e le) h = later_terms s t h le refl refl
  Write-HasTerms s t (stood now term e) h =
      later_terms s t h (Write-term {Heard = IsSound} s t (stood now term e)) refl refl
  Write-HasTerms s t _ h = later_terms s t h (omega arith) refl refl

  -- A node whose log holds no entry of a later term than its own, and that hears messages whose
  -- entries are of no later term than the message: after any run no entry of its log is of a later
  -- term than its own, and no message that it has sent is of a later term or holds an entry of a
  -- later term than the message.
  pub run-HasTerms :
      ⦃m : StateMachine S⦄ (now : ℕ) (events : List Event) (s : Server S)
      → AllHeard IsSound events
      → HasTerms s
      → HasTerms (run now events s).1
  run-HasTerms now events s g h =
      Steps-kept HasTerms Write-HasTerms (run-Steps IsSound now events s g) h
