-- ===== src/Network/Tasks.antt =====
-- The tasks of src/network.rs: the listener, and the reader and the writer of a connection. What the
-- listener accepts and what a stream yields are lists; a task that still waits at the end of its list
-- has done what it has done. A sink is the bytes that went out and how many more frames it takes.
pub mod Delivers
use mini_raft.Prelude.{ℕ, zero, suc, Option, none, some, List, [], ◌∷◌, ◌++◌}
use mini_raft.Protocol.{RemoteId, Message, Incoming}
use mini_raft.Codec.{BytesMut, SerdeJson, encode}
use mini_raft.Network.Registry.{ConnectionRegistry}
use mini_raft.Network.Connect.{Conn, handle_conn}

-- `none` is a connection that could not be accepted.
unfoldable pub listen : List (Option Conn) → ConnectionRegistry → ConnectionRegistry
unfolding handle_conn
listen [] r = r
listen (none ∷ accepted) r = listen accepted r
listen (some conn ∷ accepted) r = listen accepted (handle_conn conn r)

-- The sending half of a connection, `SplitSink<Framed<TcpStream, Codec>, Message>`.
pub record Sink : Type 0 where
  pub written : BytesMut
  pub room : ℕ

-- `none` where the message is not encoded or the connection is gone.
unfoldable pub sink_send : SerdeJson → Message → Sink → Option Sink
sink_send json msg sink = elim (encode json msg sink.written) [
  | none ↦ none
  | some written ↦ elim sink.room [
    | zero ↦ none
    | suc room ↦ some (record { written = written; room = room })
  ]
]

-- The messages of the dispatcher, until one is not sent.
unfoldable pub framed_writer : SerdeJson → List Message → Sink → Sink
unfolding sink_send
framed_writer json [] sink = sink
framed_writer json (msg ∷ from_dispatcher) sink = elim (sink_send json msg sink) [
  | none ↦ sink
  | some sink₁ ↦ framed_writer json from_dispatcher sink₁
]

-- `mpsc::Sender<Incoming>`, shared by the readers of all connections.
pub record ToServer : Type 0 where
  pub sent : List Incoming
  pub room : ℕ

-- `none` where the server has dropped its end.
unfoldable pub forward : Incoming → ToServer → Option ToServer
forward msg to_server = elim to_server.room [
  | zero ↦ none
  | suc room ↦ some (record { sent = to_server.sent ++ msg ∷ []; room = room })
]

-- `none` is a frame that does not decode, which is passed over.
unfoldable pub framed_reader : RemoteId → List (Option Message) → ToServer → ToServer
unfolding forward
framed_reader id [] to_server = to_server
framed_reader id (none ∷ stream) to_server = framed_reader id stream to_server
framed_reader id (some msg ∷ stream) to_server =
    elim (forward (record { from = id; msg = msg }) to_server) [
      | none ↦ to_server
      | some to_server₁ ↦ framed_reader id stream to_server₁
    ]

-- Both tasks of a connection; they share nothing but the socket.
unfoldable pub spawn_reader_writer_tasks :
    SerdeJson → RemoteId → List (Option Message) → List Message → ToServer × Sink → ToServer × Sink
unfolding framed_reader framed_writer
spawn_reader_writer_tasks json id stream rx (to_server, sink) =
    (framed_reader id stream to_server, framed_writer json rx sink)
