-- ===== src/Network/Connect.antt =====
-- How a connection begins (src/network.rs): dialling, the exchange of greetings, and registration.
pub mod Registered
pub mod Retry
pub mod Dialled
use mini_raft.Prelude.{
  ℕ, zero, suc, ◌+◌, ltb, Bool, Option, none, some, List, [], ◌∷◌, String, if◌then◌else◌,
}
use mini_raft.Protocol.{NodeId, RemoteId, client, peer, Message, hello_type, hello_client_type}
use mini_raft.Network.Registry.{ConnectionRegistry, register}

-- What waiting for the first frame comes to: a message, a frame that does not decode, the end of the
-- stream, or five seconds without any.
pub data NextFrame : Type 0 where
  received : Message → NextFrame
  decode_error closed timed_out : NextFrame

-- `none` for an `Err`.
unfoldable pub read_hello_response : NextFrame → Option (Option Message)
read_hello_response (received m) = some (some m)
read_hello_response decode_error = none
read_hello_response closed = some none
read_hello_response timed_out = none

unfoldable pub identify : Message → Option RemoteId
identify (hello_type hello) = some (peer hello.id)
identify (hello_client_type hello) = some (client hello.id)
identify _ = none

-- A connection, as the manager sees it: whether the greeting goes out, and what comes back.
pub record Conn : Type 0 where
  pub greets : Bool
  pub reply : NextFrame
  pub room : ℕ

unfoldable pub perform_handshake : Conn → Option (Option RemoteId)
unfolding read_hello_response identify
perform_handshake conn =
    if conn.greets
    then elim (read_hello_response conn.reply) [
      | none ↦ none
      | some reply ↦ elim reply [
        | none ↦ some none
        | some msg ↦ elim (identify msg) [ none ↦ none | some id ↦ some (some id) ]
      ]
    ]
    else none

-- Both tasks of the connection are started after that: `spawn_reader_writer_tasks` in Network/Tasks.
unfoldable pub handle_conn : Conn → ConnectionRegistry → ConnectionRegistry
unfolding perform_handshake register
handle_conn conn r = elim (perform_handshake conn) [
  | none ↦ r
  | some found ↦ elim found [ none ↦ r | some id ↦ register id conn.room r ]
]

-- The connection that the given number of attempts yields, the next one being `attempt`; `connect`
-- is what `TcpStream::connect` gives at an attempt.
unfoldable pub attempts : (ℕ → Option Conn) → ℕ → ℕ → Option Conn
attempts connect attempt zero = none
attempts connect attempt (suc left) = elim (connect attempt) [
  | some c ↦ some c
  | none ↦ attempts connect (attempt + 1) left
]

unfoldable pub connect_with_retry : (ℕ → Option Conn) → Option Conn
unfolding attempts
connect_with_retry connect = attempts connect 1 6

-- `connect` is what dialling a node gives at an attempt.
unfoldable pub dial_peers :
    (NodeId → ℕ → Option Conn)
    → List (NodeId × String)
    → NodeId
    → ConnectionRegistry
    → ConnectionRegistry
unfolding connect_with_retry handle_conn
dial_peers connect [] current_node_id r = r
dial_peers connect ((peer_id, addr) ∷ peers) current_node_id r =
    let dialled = elim (connect_with_retry (connect peer_id)) as (λ _. ConnectionRegistry) [
      | none ↦ r
      | some conn ↦ handle_conn conn r
    ] in
    dial_peers connect peers current_node_id (if ltb current_node_id peer_id then dialled else r)
