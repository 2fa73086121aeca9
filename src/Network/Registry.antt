-- ===== src/Network/Registry.antt =====
-- `ConnectionRegistry` (src/network.rs): the channels to the writer tasks of peers and clients.
pub mod Sends
use mini_raft.Prelude.{
  ℕ, zero, suc, ◌==◌, Bool, true, false, Option, none, some, List, [], ◌∷◌, ◌++◌, if◌then◌else◌,
}
use mini_raft.Protocol.{NodeId, RemoteId, client, peer, Message}

-- What the standard `HashMap` does for the registry: at most one value for a key.
abbrev pub HashMap : Type 0 → Type 0
HashMap V = List (ℕ × V)

module _ {V : Type 0} where
  abbrev pub lookup : ℕ → HashMap V → Option V
  lookup k [] = none
  lookup k ((j, v) ∷ m) = if j == k then some v else lookup k m

  abbrev pub remove : ℕ → HashMap V → HashMap V
  remove k [] = []
  remove k ((j, v) ∷ m) = let rest = remove k m in if j == k then rest else (j, v) ∷ rest

  abbrev pub insert : ℕ → V → HashMap V → HashMap V
  insert k v m = (k, v) ∷ remove k m

  abbrev pub keys : HashMap V → List ℕ
  keys [] = []
  keys ((j, _) ∷ m) = j ∷ keys m

  -- The map once the value at a key, which is shared, has changed.
  abbrev pub update : ℕ → V → HashMap V → HashMap V
  update k w [] = []
  update k w ((j, v) ∷ m) =
      let rest = update k w m in if j == k then (j, w) ∷ rest else (j, v) ∷ rest

-- `mpsc::Sender<Message>`.
pub record Channel : Type 0 where
  pub sent : List Message
  pub room : ℕ

-- `none` where the writer task has dropped its end.
unfoldable pub channel_send : Message → Channel → Option Channel
channel_send msg tx = elim tx.room [
  | zero ↦ none
  | suc room ↦ some (record { sent = tx.sent ++ msg ∷ []; room = room })
]

pub record ConnectionRegistry : Type 0 where
  pub peer_registry : HashMap Channel
  pub client_registry : HashMap Channel

unfoldable pub new : ConnectionRegistry
new = record { peer_registry = []; client_registry = [] }

-- The new channel, and the registry with it; an older one of the same id is dropped. The capacity is
-- that of a channel whose other end stays for `room` messages.
unfoldable pub register : RemoteId → ℕ → ConnectionRegistry → ConnectionRegistry
register (client client_id) room r = record r {
  client_registry = insert client_id (record { sent = []; room = room }) r.client_registry;
}
register (peer peer_id) room r = record r {
  peer_registry = insert peer_id (record { sent = []; room = room }) r.peer_registry;
}

-- The sending half of `send`, on the map of one kind; the flag is `false` for an `Err`.
unfoldable pub send_in : ℕ → Message → HashMap Channel → Bool × HashMap Channel
unfolding channel_send
send_in id msg m = elim (lookup id m) [
  | none ↦ (false, m)
  | some tx ↦ elim (channel_send msg tx) [ none ↦ (false, m) | some tx₁ ↦ (true, update id tx₁ m) ]
]

unfoldable pub send : RemoteId → Message → ConnectionRegistry → Bool × ConnectionRegistry
unfolding send_in
send (client client_id) msg r =
    let (sent, m) = send_in client_id msg r.client_registry in
    (sent, record r { client_registry = m })
send (peer peer_id) msg r =
    let (sent, m) = send_in peer_id msg r.peer_registry in (sent, record r { peer_registry = m })

unfoldable pub get_all_peers : ConnectionRegistry → List NodeId
get_all_peers r = keys r.peer_registry
