-- ===== src/Server/Client/Sent.antt =====
-- What a command comes to at the leader (`handle_set_command`, src/server.rs): what is appended and
-- what is sent.
use mini_raft.Prelude.{
  ℕ, written, write-written, length-written, zero, suc, ◌+◌, ◌≤◌, ◌<◌, ℤ, pos, negsuc, ◌≡◌, ◌≢◌,
  refl, sym, ap, subst, ◌∙◌, ◌==◌, none, some, String, List, [], ◌∷◌, ◌++◌, append_assoc,
  append-nil, length-snoc, map, length, get_elem?, get_elem?-some, if◌then◌else◌, i32_size,
  as_i32_small, as_u32_small, u32_size, ℕ_discrete, eq→==, ne→not-==, arith,
}
use mini_raft.Protocol.{NodeId, LogCommand, LogEntry, append_entries_type, broadcast, Outgoing}
use mini_raft.Config.{peer_node_addresses, pair_addresses}
use mini_raft.Server.State.{Server, leader}
use mini_raft.Server.Action.{ok}
use mini_raft.Server.Apply.Replay.{upto, last_index_lem}
use mini_raft.Server.Vote.Grant.{send_room}
use mini_raft.Server.Client.{
  prev_index, prev_term, set_entry, append_message, send_entry, send_round, send_entries,
  set_command_as, handle_set_command,
}

-- The peers of a configuration but for the node itself.
abbrev pub others : NodeId → List (NodeId × String) → List NodeId
others id [] = []
others id ((p, _) ∷ ps) = let rest = others id ps in if p == id then rest else p ∷ rest

abbrev pub next_of : List ℕ → NodeId → ℕ
next_of next i = elim (get_elem? next i) [ none ↦ 0 | some n ↦ n ]

-- The index before n, and the term of the entry there; -1 and 0 before the start.
abbrev pub before : ℕ → ℤ
before zero = negsuc 0
before (suc k) = pos k

abbrev pub term_before : List LogEntry → ℕ → ℕ
term_before log zero = 0
term_before log (suc k) = elim (get_elem? log k) [ none ↦ 0 | some e ↦ e.term ]

abbrev pub all_written : List NodeId → ℤ → List ℤ → List ℤ
all_written [] z xs = xs
all_written (i ∷ is) z xs = all_written is z (written i z xs)

pub others_self :
    (id p : NodeId) (a : String) (ps : List (NodeId × String))
    → p ≡ id
    → others id ((p, a) ∷ ps) ≡ others id ps
others_self id p a ps h = rw (eq→== p id h) refl

pub others_other :
    (id p : NodeId) (a : String) (ps : List (NodeId × String))
    → p ≢ id
    → others id ((p, a) ∷ ps) ≡ p ∷ others id ps
others_other id p a ps h = rw (ne→not-== p id h) refl

module _ {S : Type 0} where
  -- The message for peer i: to all, with the one entry, behind the index before the peer's next one.
  abbrev pub notice : LogEntry → List ℕ → Server S → NodeId → Outgoing
  notice entry next s i = record {
    dest = broadcast;
    msg = append_entries_type (record {
      term = s.current_term;
      leader_id = s.id;
      prev_log_index = before (next_of next i);
      prev_log_term = term_before s.log (next_of next i);
      entries = entry ∷ [];
      leader_commit = s.commit_index;
    });
  }

  -- The server once the entry has gone out for the peers `is`, with room for r more messages.
  abbrev pub announced : LogEntry → List ℕ → List NodeId → ℕ → Server S → Server S
  announced entry next is r s = record s {
    inner = record s.inner {
      last_sent_index = all_written is (upto (length s.log)) s.last_sent_index;
    };
    to_network = record { sent = s.to_network.sent ++ map (notice entry next s) is; room = r };
  }

  -- The leader's vectors reach peer i, and the peer's next index is inside the log or at its end.
  abbrev pub Tracks : List ℕ → Server S → NodeId → Type 0
  Tracks next s i =
      (i < length next) × (next_of next i ≤ length s.log) × (i < length s.last_sent_index)

  -- Every peer of a list but the node itself.
  abbrev pub TracksAll : List ℕ → Server S → List (NodeId × String) → Type 0
  TracksAll next s [] = Unit
  TracksAll next s ((p, _) ∷ ps) = (p ≢ s.id → Tracks next s p) × TracksAll next s ps

pub get_elem?-next_of :
    (next : List ℕ) (i : NodeId) → i < length next → get_elem? next i ≡ some (next_of next i)
get_elem?-next_of next i h = let (n, e) = get_elem?-some next i h in ground (arith, e)

pub prev_index-before : (n : ℕ) → n < i32_size → prev_index n ≡ some (before n)
unfolding prev_index
prev_index-before zero h = refl
prev_index-before (suc k) h = ground (arith, as_i32_small (suc k) h)

pub prev_term-before :
    (n : ℕ) (log : List LogEntry)
    → n ≤ length log
    → prev_term (before n) log ≡ some (term_before log n)
unfolding prev_term
prev_term-before zero log h = refl
prev_term-before (suc k) log h =
    let (e, found) = get_elem?-some log k (omega arith) in ground (arith, found)

module _ {S : Type 0} (entry : LogEntry) (next : List ℕ) where
  pub send_entry_lem :
      (i : NodeId) (s : Server S) (r : ℕ)
      → length s.log < i32_size
      → Tracks next s i
      → s.to_network.room ≡ suc r
      → send_entry entry next i s ≡ (ok tt, announced entry next (i ∷ []) r s)
  unfolding send_entry append_message
  send_entry_lem i s r small (tracked, inside, reach) room =
      let n = next_of next i in
      rw
        (
          get_elem?-next_of next i tracked,
          prev_index-before n (omega arith),
          prev_term-before n s.log inside,
          last_index_lem s small,
          write-written s.last_sent_index i (upto (length s.log)) reach,
        )
        (send_room (append_message entry (before n) (term_before s.log n) s) (marked s) r room)
    where
      marked : Server S → Server S
      marked t = record t {
        inner = record t.inner {
          last_sent_index = written i (upto (length t.log)) t.last_sent_index;
        };
      }

  pub Tracks-announced :
      (i : NodeId) (r : ℕ) (s : Server S) (ps : List (NodeId × String))
      → TracksAll next s ps
      → TracksAll next (announced entry next (i ∷ []) r s) ps
  Tracks-announced i r s [] _ = tt
  Tracks-announced i r s ((p, _) ∷ ps) (h, hs) = (
    λ ne.
        let (a, b, c) = h ne in
        (a, b, omega (arith, c, length-written i (upto (length s.log)) s.last_sent_index)),
    Tracks-announced i r s ps hs,
  )

  pub announced_none : (s : Server S) → announced entry next [] s.to_network.room s ≡ s
  announced_none s = rw (append-nil s.to_network.sent) refl

  pub announced-cons :
      (p : NodeId) (is : List NodeId) (r q : ℕ) (s : Server S)
      → announced entry next is r (announced entry next (p ∷ []) q s)
        ≡ announced entry next (p ∷ is) r s
  announced-cons p is r q s =
      rw
        (append_assoc s.to_network.sent (notice entry next s p ∷ []) (map (notice entry next s) is))
        refl

  send_entries_lem :
      (ps : List (NodeId × String)) (s : Server S) (r : ℕ)
      → length s.log < i32_size
      → TracksAll next s ps
      → s.to_network.room ≡ length (others s.id ps) + r
      → send_entries entry next ps s ≡ (ok tt, announced entry next (others s.id ps) r s)
  unfolding send_entries send_round
  send_entries_lem [] s r small _ room =
      ap (λ t. (ok tt, t))
        (sym (subst (λ q. announced entry next [] q s ≡ s) (omega arith) (announced_none s)))
  send_entries_lem ((p, a) ∷ ps) s r small (h, hs) room = elim (ℕ_discrete p s.id) [
    | yes same ↦
        let e = eq→== p s.id same in
        rw e (
          send_entries_lem ps s r small hs
            (room ∙ ap (λ l. length l + r) (others_self s.id p a ps same)))
    | no other ↦
        let e = ne→not-== p s.id other in
        let left = length (others s.id ps) + r in
        let t = announced entry next (p ∷ []) left s in
        rw
          (
            e,
            send_entry_lem p s left small (h other)
                (omega (arith, room, ap length (others_other s.id p a ps other))),
          )
          (send_entries_lem ps t r small (Tracks-announced p left s ps hs) refl
            ∙ ap (λ u. (ok tt, u)) (announced-cons p (others s.id ps) r left s))
  ]

-- The server with an entry at the end of its log.
abbrev pub pushed : {S : Type 0} → LogEntry → Server S → Server S
pushed entry s = record s { log = s.log ++ entry ∷ [] }

-- The entry of a new command: the next one of the log, in the leader's term.
abbrev pub command_entry : {S : Type 0} → String → String → ℕ → ℕ → Server S → LogEntry
command_entry key value client_id request_id s = record {
  term = s.current_term;
  command = LogCommand.set key value;
  index = length s.log;
  client_id = client_id;
  request_id = request_id;
}

pub set_entry_lem :
    {S : Type 0} (key value : String) (client_id request_id : ℕ) (s : Server S)
    → length s.log < u32_size
    → set_entry key value client_id request_id s ≡ command_entry key value client_id request_id s
unfolding set_entry
set_entry_lem key value client_id request_id s small =
    ap (λ i. record (command_entry key value client_id request_id s) { index = i })
      (as_u32_small (length s.log) small)

pub addresses_same : (ps : List (NodeId × String)) → pair_addresses ps ≡ ps
unfolding pair_addresses
addresses_same [] = refl
addresses_same ((p, a) ∷ ps) = rw (addresses_same ps) refl

-- The whole effect of a `set` at a leader whose vectors and channel reach every other configured
-- node, and whose log stays shorter than 2^31: the command is appended in the leader's term, at the
-- end of the log, and goes out once for each such node, each time to all of them; each message has
-- the one new entry behind the index before that node's next one. For each node the end of the log is
-- noted as sent, and nothing else changes.
pub handle_set_command_sends :
    {S : Type 0} (key value : String) (client_id request_id : ℕ) (m : List ℤ) (next : List ℕ)
    (s : Server S) (r : ℕ)
    → s.state ≡ leader m next
    → length s.log + 1 < i32_size
    → TracksAll next
        (pushed (command_entry key value client_id request_id s) s)
        s.config.peer_addresses
    → s.to_network.room ≡ length (others s.id s.config.peer_addresses) + r
    → handle_set_command key value client_id request_id s ≡ (
      ok tt,
      announced
          (command_entry key value client_id request_id s)
          next
          (others s.id s.config.peer_addresses)
          r
          (pushed (command_entry key value client_id request_id s) s),
    )
unfolding handle_set_command set_command_as peer_node_addresses
handle_set_command_sends key value client_id request_id m next s r role small tracks room =
    let coded = set_entry key value client_id request_id s in
    let entry = command_entry key value client_id request_id s in
    ap (λ st. set_command_as st key value client_id request_id s) role
    ∙ ap (λ ps. send_entries coded next ps (pushed coded s))
        (addresses_same s.config.peer_addresses)
    ∙ ap (λ e. send_entries e next s.config.peer_addresses (pushed e s))
        (set_entry_lem key value client_id request_id s (omega arith))
    ∙ send_entries_lem entry next s.config.peer_addresses (pushed entry s) r
        (omega (arith, length-snoc s.log entry)) tracks room
