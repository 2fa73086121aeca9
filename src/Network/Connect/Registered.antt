-- ===== src/Network/Connect/Registered.antt =====
-- Which connections get registered (src/network.rs).
use mini_raft.Prelude.{ℕ, ◌≡◌, ◌≢◌, refl, ap, Bool, true, false, some, []}
use mini_raft.Protocol.{
  RemoteId, client, peer, Message, append_entries_type, append_entries_response_type,
  request_vote_type, request_vote_response_type, client_request_type, client_response_type,
  hello_type, hello_client_type,
}
use mini_raft.Network.Registry.{Channel, ConnectionRegistry, register}
use mini_raft.Network.Registry.Sends.{lookup-insert, lookup-insert_other}
use mini_raft.Network.Dispatch.Delivery.{channel_of}
use mini_raft.Network.Connect.{
  NextFrame, received, decode_error, closed, timed_out, read_hello_response, identify, Conn,
  perform_handshake, handle_conn,
}

-- The first frame greets as a peer with that number, or as a client with that number.
abbrev pub Says : NextFrame → RemoteId → Type 0
Says (received (hello_type h)) (peer id) = h.id ≡ id
Says (received (hello_client_type h)) (client id) = h.id ≡ id
Says _ _ = ⊥

abbrev pub fresh : ℕ → Channel
fresh room = record { sent = []; room = room }

identify-Says : (m : Message) (id : RemoteId) → Says (received m) id → identify m ≡ some id
unfolding identify
identify-Says (hello_type h) (peer id) e = ap (λ n. some (peer n)) e
identify-Says (hello_client_type h) (client id) e = ap (λ n. some (client n)) e
identify-Says (hello_type h) (client id) e = absurd e
identify-Says (hello_client_type h) (peer id) e = absurd e
identify-Says (append_entries_type _) id e = absurd e
identify-Says (append_entries_response_type _) id e = absurd e
identify-Says (request_vote_type _) id e = absurd e
identify-Says (request_vote_response_type _) id e = absurd e
identify-Says (client_request_type _) id e = absurd e
identify-Says (client_response_type _) id e = absurd e

perform_handshake_found :
    (greets : Bool) (reply : NextFrame) (room : ℕ) (id : RemoteId)
    → greets ≡ true
    → Says reply id
    → perform_handshake (record { greets = greets; reply = reply; room = room }) ≡ some (some id)
unfolding perform_handshake read_hello_response
perform_handshake_found true (received m) room id g e = rw (identify-Says m id e) refl
perform_handshake_found true decode_error room id g e = absurd e
perform_handshake_found true closed room id g e = absurd e
perform_handshake_found true timed_out room id g e = absurd e
perform_handshake_found false _ room id g e = cc g

channel_of-register :
    (id other : RemoteId) (room : ℕ) (r : ConnectionRegistry)
    → (channel_of id (register id room r) ≡ some (fresh room))
      × (other ≢ id → channel_of other (register id room r) ≡ channel_of other r)
unfolding register
channel_of-register (peer k) (peer n) room r = (
  lookup-insert k (fresh room) r.peer_registry,
  λ ne. lookup-insert_other n k (fresh room) r.peer_registry (λ e. ne (ap peer e)),
)
channel_of-register (client k) (client n) room r = (
  lookup-insert k (fresh room) r.client_registry,
  λ ne. lookup-insert_other n k (fresh room) r.client_registry (λ e. ne (ap client e)),
)
channel_of-register (peer k) (client n) room r =
    (lookup-insert k (fresh room) r.peer_registry, λ ne. refl)
channel_of-register (client k) (peer n) room r =
    (lookup-insert k (fresh room) r.client_registry, λ ne. refl)

handle_conn_found :
    (conn : Conn) (id : RemoteId) (r : ConnectionRegistry)
    → conn.greets ≡ true
    → Says conn.reply id
    → handle_conn conn r ≡ register id conn.room r
unfolding handle_conn
handle_conn_found conn id r g e =
    rw (handle_conn, perform_handshake_found conn.greets conn.reply conn.room id g e) refl

-- A connection whose greeting went out and whose first frame is a Hello with a number, or a
-- HelloClient with a number, gets a fresh channel as the peer, or as the client, with that number, in
-- place of an older one; the channels of all other peers and clients stay as they are.
pub handle_conn_registers :
    (conn : Conn) (id other : RemoteId) (r : ConnectionRegistry)
    → conn.greets ≡ true
    → Says conn.reply id
    → (channel_of id (handle_conn conn r) ≡ some (fresh conn.room))
      × (other ≢ id → channel_of other (handle_conn conn r) ≡ channel_of other r)
handle_conn_registers conn id other r g e =
    rw (handle_conn_found conn id r g e) (channel_of-register id other conn.room r)
