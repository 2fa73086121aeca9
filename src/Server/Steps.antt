-- ===== src/Server/Steps.antt =====
-- The server of src/server.rs as a transition system: the writes that its handlers and loops make, one
-- constructor for each kind, and sequences of them. `Heard` says which messages may be received.
pub mod Rules
pub mod Apply
pub mod Append
pub mod Vote
pub mod Client
pub mod Replicate
pub mod Loops
pub mod Ends
use mini_raft.Prelude.{
  ℕ, ◌+◌, ◌≤◌, ◌<◌, ℤ, pos, negsuc, ◌≤ℤ◌, ◌<ℤ◌, inc_i32, i32_size, u32_size, as_u32, add_u32, ◌≡◌,
  ◌⊎◌, Option, none, some, List, [], ◌∷◌, ◌++◌, length, drop, replicate, arith,
}
use mini_raft.Protocol.{
  LogEntry, AppendEntries, ClientRequest, client_request_type, Message, append_entries_type,
  append_entries_response_type, request_vote_type, request_vote_response_type, client_response_type,
  Outgoing,
}
use mini_raft.Server.State.{Server, ServerState, RaftState, follower, candidate, leader}
use mini_raft.Server.Roles.{first_next_index}
use mini_raft.Server.Append.{merge_entries}

-- A message of a node in a term, with a log: it is of that term, and what entries it holds are the
-- end of that log.
abbrev pub IsOwn : ℕ → List LogEntry → Message → Type 0
IsOwn term log (append_entries_type a) = (a.term ≡ term) × (k : ℕ) × (a.entries ≡ drop k log)
IsOwn term log (append_entries_response_type a) = a.term ≡ term
IsOwn term log (request_vote_type a) = a.term ≡ term
IsOwn term log (request_vote_response_type a) = a.term ≡ term
IsOwn term log (client_response_type _) = Unit
IsOwn term log _ = ⊥

-- An entry that carries a request of a client.
abbrev pub IsOf : ClientRequest → LogEntry → Type 0
IsOf request entry =
    (entry.command ≡ request.command)
    × (entry.client_id ≡ request.client_id)
    × (entry.request_id ≡ request.request_id)

-- The term that a message between nodes carries.
abbrev pub term_of : Message → Option ℕ
term_of (append_entries_type a) = some a.term
term_of (append_entries_response_type a) = some a.term
term_of (request_vote_type a) = some a.term
term_of (request_vote_response_type a) = some a.term
term_of _ = none

-- A commit index that is written is an `i32`, or at least no further out than the one before.
abbrev pub StaysIn : ℤ → ℤ → Type 0
StaysIn old z = ((z <ℤ pos i32_size) ⊎ (z ≤ℤ old)) × ((negsuc i32_size <ℤ z) ⊎ (old ≤ℤ z))

abbrev pub with_inner : {S : Type 0} → Server S → ServerState S → Server S
with_inner s i = record s { inner = i }

add_u32-le : (a b v : ℕ) → add_u32 a b ≡ some v → a ≤ v
add_u32-le a b v e = ground arith

module _ {S : Type 0} where
  pub data Write (Heard : Message → Type 0) (s : Server S) : Server S → Type 0 where
    sent :
        (o : Outgoing) (room : ℕ)
        → IsOwn s.current_term s.log o.msg
        → Write Heard s
            (record s { to_network = record { sent = s.to_network.sent ++ o ∷ []; room = room } })
    limited :
        (room : ℕ)
        → Write Heard s (record s { to_network = record { sent = s.to_network.sent; room = room } })
    raised :
        (msg : Message) (term : ℕ)
        → Heard msg
        → term_of msg ≡ some term
        → s.current_term ≤ term
        → Write Heard s (with_inner s (record s.inner { current_term = term }))
    followed :
        (msg : Message) (term : ℕ)
        → Heard msg
        → term_of msg ≡ some term
        → s.current_term ≤ term
        → Write Heard s (
            with_inner s
              (record s.inner { current_term = term; state = follower; voted_for = none }))
    stood :
        (now term : ℕ)
        → add_u32 s.current_term 1 ≡ some term
        → Write Heard s (
            with_inner s
              (record s.inner { current_term = term; last_heartbeat = now; voted_for = some s.id }))
    counted :
        (votes : ℕ)
        → votes < u32_size
        → Write Heard s (with_inner s (record s.inner { state = candidate votes }))
    led : Write Heard s (
        with_inner s (record s.inner {
          state =
              leader
                (replicate (s.config.total_nodes + 1) (negsuc 0))
                (replicate (s.config.total_nodes + 1) (first_next_index s.last_applied));
        }))
    tracked :
        (m : List ℤ) (n : List ℕ) (m₁ : List ℤ) (n₁ : List ℕ)
        → s.state ≡ leader m n
        → length m₁ ≡ length m
        → length n₁ ≡ length n
        → Write Heard s (with_inner s (record s.inner { state = leader m₁ n₁ }))
    marked :
        (l : List ℤ)
        → length l ≡ length s.last_sent_index
        → Write Heard s (with_inner s (record s.inner { last_sent_index = l }))
    committed :
        (z : ℤ)
        → StaysIn s.commit_index z
        → Write Heard s (with_inner s (record s.inner { commit_index = z }))
    applied :
        (z : ℤ)
        → inc_i32 s.last_applied ≡ some z
        → Write Heard s (with_inner s (record s.inner { last_applied = z }))
    settled : Write Heard s (with_inner s (record s.inner { last_applied = s.commit_index }))
    stored : (x : S) → Write Heard s (with_inner s (record s.inner { state_machine = x }))
    merged :
        (a : AppendEntries) (log : List LogEntry)
        → Heard (append_entries_type a)
        → a.term ≤ s.current_term
        → merge_entries a.entries s.log ≡ some log
        → Write Heard s (record s { log = log })
    pushed :
        (request : ClientRequest) (entry : LogEntry)
        → Heard (client_request_type request)
        → IsOf request entry
        → entry.term ≡ s.current_term
        → entry.index ≡ as_u32 (length s.log)
        → Write Heard s (record s { log = s.log ++ entry ∷ [] })

  pub data Steps (Heard : Message → Type 0) (s : Server S) : Server S → Type 0 where
    here : Steps Heard s s
    then_write : {t u : Server S} → Steps Heard s t → Write Heard t u → Steps Heard s u

  pub Steps-trans :
      {Heard : Message → Type 0} {s t u : Server S}
      → Steps Heard s t
      → Steps Heard t u
      → Steps Heard s u
  Steps-trans h here = h
  Steps-trans h (then_write r w) = then_write (Steps-trans h r) w

  -- An invariant of every write is one of every sequence of them.
  pub Steps-kept :
      {Heard : Message → Type 0} (P : Server S → Type 0)
      (kept : (t u : Server S) → Write Heard t u → P t → P u) {s t : Server S}
      → Steps Heard s t
      → P s
      → P t
  Steps-kept P kept here p = p
  Steps-kept P kept (then_write {t} {u} r w) p = kept t u w (Steps-kept P kept r p)

  -- The term of a node never goes back.
  pub Write-term :
      {Heard : Message → Type 0} (s t : Server S)
      → Write Heard s t
      → s.current_term ≤ t.current_term
  Write-term s _ (raised msg term h e le) = le
  Write-term s _ (followed msg term h e le) = le
  Write-term s _ (stood now term e) = add_u32-le s.current_term 1 term e
  Write-term s _ _ = omega arith

  pub Steps-term :
      {Heard : Message → Type 0} {s t : Server S}
      → Steps Heard s t
      → s.current_term ≤ t.current_term
  Steps-term here = omega arith
  Steps-term (then_write {t} {u} r w) = omega (arith, Steps-term r, Write-term t u w)

  -- More messages may be received.
  pub Write-hears :
      {Heard Wider : Message → Type 0}
      → ((msg : Message) → Heard msg → Wider msg)
      → (s t : Server S) → Write Heard s t
      → Write Wider s t
  Write-hears f s t (sent o room w) = sent o room w
  Write-hears f s t (limited room) = limited room
  Write-hears f s t (raised msg term h e le) = raised msg term (f msg h) e le
  Write-hears f s t (followed msg term h e le) = followed msg term (f msg h) e le
  Write-hears f s t (stood now term e) = stood now term e
  Write-hears f s t (counted votes lt) = counted votes lt
  Write-hears f s t led = led
  Write-hears f s t (tracked m n m₁ n₁ e l k) = tracked m n m₁ n₁ e l k
  Write-hears f s t (marked l e) = marked l e
  Write-hears f s t (committed z h) = committed z h
  Write-hears f s t (applied z e) = applied z e
  Write-hears f s t settled = settled
  Write-hears f s t (stored x) = stored x
  Write-hears f s t (merged a log h le e) = merged a log (f (append_entries_type a) h) le e
  Write-hears f s t (pushed r entry h of term index) =
      pushed r entry (f (client_request_type r) h) of term index

  pub Steps-hears :
      {Heard Wider : Message → Type 0}
      → ((msg : Message) → Heard msg → Wider msg)
      → (s t : Server S) → Steps Heard s t
      → Steps Wider s t
  Steps-hears f s t here = here
  Steps-hears f s u (then_write {t} r w) = then_write (Steps-hears f s t r) (Write-hears f t u w)
