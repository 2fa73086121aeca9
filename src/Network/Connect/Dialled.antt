-- ===== src/Network/Connect/Dialled.antt =====
-- Which peers a node has a channel to once it has dialled (`dial_peers`, src/network.rs).
use mini_raft.Prelude.{
  ℕ, ◌≡◌, ◌≢◌, inl, inr, refl, sym, ap, subst, ◌∙◌, Bool, true, false, Option, none, some, List, [],
  ◌∷◌, ltb, String, ◌==◌, if◌then◌else◌, ℕ_discrete, eq→==, ne→not-==,
}
use mini_raft.Protocol.{NodeId, peer}
use mini_raft.Network.Registry.{Channel, ConnectionRegistry}
use mini_raft.Network.Dispatch.Delivery.{channel_of}
use mini_raft.Network.Connect.{Conn, handle_conn, connect_with_retry, dial_peers}
use mini_raft.Network.Connect.Registered.{Says, fresh, handle_conn_registers}
use mini_raft.Network.Connect.Retry.{IsFirst, connect_with_retry-IsFirst}

-- Node q is among the peers and has a higher number.
abbrev pub is_above : NodeId → NodeId → List (NodeId × String) → Bool
is_above id q [] = false
is_above id q ((p, _) ∷ ps) = let rest = is_above id q ps in if p == q then ltb id q else rest

-- The channel to a peer that may have been dialled, with that result, and that was there before.
abbrev pub channel_after : Bool → Option Conn → Option Channel → Option Channel
channel_after true (some conn) before = some (fresh conn.room)
channel_after true none before = before
channel_after false result before = before

-- Whatever answers at the address of a peer takes the greeting and says that it is that peer.
abbrev pub LeadsTo : (NodeId → ℕ → Option Conn) → Type 0
LeadsTo connect =
    (p : NodeId) (k : ℕ) (conn : Conn)
    → connect p k ≡ some conn
    → (conn.greets ≡ true) × Says conn.reply (peer p)

-- What dialling one peer, with that result, leaves in the registry.
abbrev after_dial : Option Conn → ConnectionRegistry → ConnectionRegistry
after_dial none r = r
after_dial (some conn) r = handle_conn conn r

abbrev LedTo : NodeId → Option Conn → Type 0
LedTo p none = Unit
LedTo p (some conn) = (conn.greets ≡ true) × Says conn.reply (peer p)

channel_of-after_dial :
    (p : NodeId) (result : Option Conn) (r : ConnectionRegistry)
    → LedTo p result
    → channel_of (peer p) (after_dial result r) ≡ channel_after true result (channel_of (peer p) r)
channel_of-after_dial p none r h = refl
channel_of-after_dial p (some conn) r (greets, says) =
    (handle_conn_registers conn (peer p) (peer p) r greets says).0

channel_of-after_other :
    (p q : NodeId) (result : Option Conn) (r : ConnectionRegistry)
    → p ≢ q
    → LedTo p result
    → channel_of (peer q) (after_dial result r) ≡ channel_of (peer q) r
channel_of-after_other p q none r ne h = refl
channel_of-after_other p q (some conn) r ne (greets, says) =
    (handle_conn_registers conn (peer p) (peer q) r greets says).1 (λ same. ne (cc same))

after_again :
    (b : Bool) (result : Option Conn) (before : Option Channel)
    → channel_after b result (channel_after true result before) ≡ channel_after true result before
after_again true none before = refl
after_again true (some conn) before = refl
after_again false result before = refl

dial_self :
    (q : NodeId) (result : Option Conn) (r : ConnectionRegistry) (t b : Bool)
    → LedTo q result
    → (t ≡ false → b ≡ false)
    → channel_after b result (channel_of (peer q) (if t then after_dial result r else r))
      ≡ channel_after t result (channel_of (peer q) r)
dial_self q result r true b led h =
    ap (channel_after b result) (channel_of-after_dial q result r led)
    ∙ after_again b result (channel_of (peer q) r)
dial_self q result r false b led h =
    ap (λ c. channel_after c result (channel_of (peer q) r)) (h refl)

dial_other :
    (p q : NodeId) (dialled result : Option Conn) (r : ConnectionRegistry) (t b : Bool)
    → p ≢ q
    → LedTo p dialled
    → channel_after b result (channel_of (peer q) (if t then after_dial dialled r else r))
      ≡ channel_after b result (channel_of (peer q) r)
dial_other p q dialled result r true b ne led =
    ap (channel_after b result) (channel_of-after_other p q dialled r ne led)
dial_other p q dialled result r false b ne led = refl

is_above-low :
    (id q : NodeId) (peers : List (NodeId × String))
    → ltb id q ≡ false
    → is_above id q peers ≡ false
is_above-low id q [] low = refl
is_above-low id q ((p, _) ∷ ps) low = elim (ℕ_discrete p q) [
  | yes same ↦ rw (eq→== p q same) low
  | no other ↦ rw (ne→not-== p q other) (is_above-low id q ps low)
]

dial_peers-cons :
    (connect : NodeId → ℕ → Option Conn) (p id : NodeId) (a : String) (ps : List (NodeId × String))
    (result : Option Conn) (r : ConnectionRegistry)
    → connect_with_retry (connect p) ≡ result
    → dial_peers connect ((p, a) ∷ ps) id r
      ≡ dial_peers connect ps id (if ltb id p then after_dial result r else r)
unfolding dial_peers
dial_peers-cons connect p id a ps none r e = rw (dial_peers, e) refl
dial_peers-cons connect p id a ps (some conn) r e = rw (dial_peers, e) refl

module _ (connect : NodeId → ℕ → Option Conn) (right : LeadsTo connect) (id : NodeId) where
  led_to : (p : NodeId) (result : Option Conn) → IsFirst (connect p) 1 6 result → LedTo p result
  led_to p none first = tt
  led_to p (some conn) (inl (j, _, _, _, c, found, same)) = right p j conn (found ∙ sym same)
  led_to p (some conn) (inr (_, failed)) = cc failed

  dials :
      (peers : List (NodeId × String)) (q : NodeId) (r : ConnectionRegistry)
      → channel_of (peer q) (dial_peers connect peers id r)
        ≡ channel_after
            (is_above id q peers)
            (connect_with_retry (connect q))
            (channel_of (peer q) r)
  unfolding dial_peers
  dials [] q r = refl
  dials ((p, a) ∷ ps) q r =
      let result = connect_with_retry (connect p) in
      let led = led_to p result (connect_with_retry-IsFirst (connect p)) in
      let b = is_above id q ps in
      let t = if ltb id p then after_dial result r else r in
      ap (channel_of (peer q)) (dial_peers-cons connect p id a ps result r refl)
      ∙ dials ps q t
      ∙ elim (ℕ_discrete p q) [
        | no other ↦
            rw (ne→not-== p q other)
              (dial_other p q result (connect_with_retry (connect q)) r (ltb id p) b other led)
        | yes same ↦ rw (eq→== p q same) (
            subst
              (λ n.
                channel_after b (connect_with_retry (connect q)) (
                  channel_of (peer q)
                    (if ltb id n then after_dial (connect_with_retry (connect n)) r else r))
                ≡ channel_after (ltb id q) (connect_with_retry (connect q)) (channel_of (peer q) r))
              (sym same)
              (dial_self q (connect_with_retry (connect q)) r (ltb id q) b
                (led_to q (connect_with_retry (connect q)) (connect_with_retry-IsFirst (connect q)))
                (is_above-low id q ps)))
      ]

  -- A node dials its peers, where whatever answers at the address of a peer takes the greeting and
  -- says that it is that peer. Afterwards a peer that is among them and has a higher number than the
  -- node has a fresh channel, with the room of the connection that the first of six attempts to
  -- succeed has made, or, if all six fail, the channel that it had; and a peer that has no higher
  -- number, or is not among them, has the channel that it had.
  pub dial_peers-reaches :
      (peers : List (NodeId × String)) (q : NodeId) (r : ConnectionRegistry)
      → (result : Option Conn) × IsFirst (connect q) 1 6 result
        × (channel_of (peer q) (dial_peers connect peers id r)
            ≡ channel_after (is_above id q peers) result (channel_of (peer q) r))
  dial_peers-reaches peers q r =
      (connect_with_retry (connect q), connect_with_retry-IsFirst (connect q), dials peers q r)
