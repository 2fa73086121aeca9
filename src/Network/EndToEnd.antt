-- ===== src/Network/EndToEnd.antt =====
-- From the server of one node to the server of another (src/network.rs, src/codec.rs).
use mathlib.Core.Option
use mini_raft.Prelude.{
  ℕ, Option, zero, suc, ◌≡◌, refl, sym, ap, ◌∙◌, none, some, List, [], ◌∷◌, ◌++◌, map, append_assoc,
  append-nil, length, take,
}
use mini_raft.Protocol.{RemoteId, Message, Outgoing}
use mini_raft.Codec.{SerdeJson, ReadsBack, BytesMut}
use mini_raft.Codec.Stream.{encode_all, decode_all, Fit}
use mini_raft.Network.Registry.{keys, Channel, ConnectionRegistry}
use mini_raft.Network.Registry.Sends.{IsDistinct, push_all}
use mini_raft.Network.Dispatch.{dispatch_server_msg}
use mini_raft.Network.Dispatch.Delivery.{channel_of, addressed, dispatch_server_msg-addressed}
use mini_raft.Network.Connect.Registered.{fresh}
use mini_raft.Network.Tasks.{ToServer, framed_writer, framed_reader}
use mini_raft.Network.Tasks.Delivers.{incoming, connection_delivers}

-- A channel takes messages as long as it has room.
push_all-take :
    (ms : List Message) (sent : List Message) (room : ℕ)
    → (push_all ms (record { sent = sent; room = room })).sent ≡ sent ++ take room ms
push_all-take [] sent zero = sym (append-nil sent)
push_all-take [] sent (suc room) = sym (append-nil sent)
push_all-take (m ∷ ms) sent zero = push_all-take ms sent zero ∙ none_taken ms
  where
    none_taken : (xs : List Message) → sent ++ take zero xs ≡ sent ++ []
    none_taken [] = refl
    none_taken (x ∷ xs) = refl
push_all-take (m ∷ ms) sent (suc room) =
    push_all-take ms (sent ++ m ∷ []) room ∙ append_assoc sent (m ∷ []) (take room ms)

-- What the reader at the other end of a connection makes of the messages in the writer's channel, if
-- there is one; the socket takes `taken` frames.
abbrev pub through : SerdeJson → RemoteId → ℕ → ToServer → Option Channel → ToServer
through json from taken to_server none = to_server
through json from taken to_server (some tx) =
    framed_reader from
      (map some
        (decode_all json (length (take taken tx.sent))
          (framed_writer json tx.sent (record { written = []; room = taken })).written).0)
      to_server

-- The channel to the server of the node `id`, once the messages `os` of the server of the node `from`
-- have gone through the dispatcher, the connection's writer, the socket and the other node's reader.
abbrev pub carried :
    SerdeJson → RemoteId → RemoteId → List Outgoing → ℕ → ConnectionRegistry → ToServer → ToServer
carried json from id os taken r to_server =
    through json from taken to_server (channel_of id (dispatch_server_msg os r))

-- What gets through: the channel has room for `room` messages, the socket takes `taken` frames.
abbrev pub carried_messages : RemoteId → List Outgoing → ℕ → ℕ → List Message
carried_messages id os room taken = take taken (take room (addressed id os))

-- The messages that a server sends, all of them in order, where no peer is registered twice, the
-- connection of `id` has a fresh channel, a serde_json reads back what it wrote, and each message that
-- the channel and the socket take for `id` has a JSON, shorter than 4 GiB: the server at the other end
-- gets the messages for `id`, those to all included if `id` is a peer, and no others, in that order,
-- each once and under the sender's id, as far as the channel, the socket and that server take them.
-- What it had before stays in front.
pub carried_in_order :
    (json : SerdeJson)
    → ReadsBack json
    → (from id : RemoteId) (os : List Outgoing) (room taken : ℕ) (r : ConnectionRegistry)
      (out : BytesMut) (to_server : ToServer)
    → IsDistinct (keys r.peer_registry)
    → channel_of id r ≡ some (fresh room)
    → Fit json (carried_messages id os room taken)
    → encode_all json (carried_messages id os room taken) [] ≡ some out
    → (carried json from id os taken r to_server).sent
      ≡ to_server.sent
        ++ map (incoming from) (take to_server.room (carried_messages id os room taken))
carried_in_order json law from id os room taken r out to_server distinct connected fit h =
    let tx = push_all (addressed id os) (fresh room) in
    ap (λ c. (through json from taken to_server c).sent)
      (dispatch_server_msg-addressed os id r distinct
        ∙ ap (Option.map (push_all (addressed id os))) connected)
    ∙ ap
        (λ ms.
          (through json from taken to_server (some (record { sent = ms; room = tx.room }))).sent)
        (push_all-take (addressed id os) [] room)
    ∙ connection_delivers json law from (take room (addressed id os)) taken out to_server fit h
