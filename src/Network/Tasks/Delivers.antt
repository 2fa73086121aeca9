-- ===== src/Network/Tasks/Delivers.antt =====
-- What the messages of one end of a connection come to at the other (src/network.rs, src/codec.rs).
use mini_raft.Prelude.{
  inl, inr, Option-cases, ℕ, zero, suc, ◌≡◌, refl, sym, ap, ◌∙◌, none, some, List, [], ◌∷◌, ◌++◌,
  map, append_assoc, append-nil, length, take,
}
use mini_raft.Protocol.{RemoteId, Message, Incoming}
use mini_raft.Codec.{BytesMut, SerdeJson, ReadsBack, encode}
use mini_raft.Codec.Stream.{
  encode_all, encode_all-none, encode_all-cons, decode_all, Fit, decode_all-encode_all,
}
use mini_raft.Network.Tasks.{sink_send, framed_writer, ToServer, framed_reader}

abbrev pub incoming : RemoteId → Message → Incoming
incoming id msg = record { from = id; msg = msg }

-- A reader forwards in order what its stream yields, as far as the server takes it.
framed_reader-take :
    (id : RemoteId) (ms : List Message) (sent : List Incoming) (room : ℕ)
    → (framed_reader id (map some ms) (record { sent = sent; room = room })).sent
      ≡ sent ++ map (incoming id) (take room ms)
unfolding framed_reader
framed_reader-take id [] sent zero = sym (append-nil sent)
framed_reader-take id [] sent (suc room) = sym (append-nil sent)
framed_reader-take id (m ∷ ms) sent zero = sym (append-nil sent)
framed_reader-take id (m ∷ ms) sent (suc room) =
    framed_reader-take id ms (sent ++ incoming id m ∷ []) room
    ∙ append_assoc sent (incoming id m ∷ []) _

-- The first message of a list that is written as a whole.
first_written :
    (json : SerdeJson) (m : Message) (ms : List Message) (dst : BytesMut) {out : BytesMut}
    → encode_all json (m ∷ ms) dst ≡ some out
    → (bytes : BytesMut) × (encode json m dst ≡ some bytes) × (encode_all json ms bytes ≡ some out)
first_written json m ms dst h = elim (Option-cases (encode json m dst)) [
  | inl e ↦ cc (sym (encode_all-none json m ms dst e) ∙ h)
  | inr (bytes, e) ↦ (bytes, e, sym (encode_all-cons json m ms dst e) ∙ h)
]

sink_send-zero :
    (json : SerdeJson) (m : Message) (dst : BytesMut)
    → sink_send json m (record { written = dst; room = 0 }) ≡ none
unfolding sink_send
sink_send-zero json m dst = elim (Option-cases (encode json m dst)) [
  | inl e ↦ rw (sink_send, e) refl
  | inr (bytes, e) ↦ rw (sink_send, e) refl
]

sink_send-suc :
    (json : SerdeJson) (m : Message) (dst bytes : BytesMut) (room : ℕ)
    → encode json m dst ≡ some bytes
    → sink_send json m (record { written = dst; room = suc room })
      ≡ some (record { written = bytes; room = room })
unfolding sink_send
sink_send-suc json m dst bytes room e = rw (sink_send, e) refl

-- A writer writes in order what it is given, as far as the connection takes it.
framed_writer-take :
    (json : SerdeJson) (ms : List Message) (dst out : BytesMut) (room : ℕ)
    → encode_all json (take room ms) dst ≡ some out
    → (framed_writer json ms (record { written = dst; room = room })).written ≡ out
unfolding framed_writer encode_all
framed_writer-take json [] dst out zero h = cc h
framed_writer-take json [] dst out (suc room) h = cc h
framed_writer-take json (m ∷ ms) dst out zero h =
    rw (framed_writer, sink_send-zero json m dst) (cc h)
framed_writer-take json (m ∷ ms) dst out (suc room) h =
    let (bytes, e, r) = first_written json m (take room ms) dst h in
    rw (framed_writer, sink_send-suc json m dst bytes room e)
      (framed_writer-take json ms bytes out room r)

-- Messages that go through the writer of one node, the bytes of a connection and the reader of
-- another, where a `serde_json` reads back what it wrote, each message that the connection takes has
-- a JSON, and that is shorter than 4 GiB: the other server gets those messages, in that order, each
-- once and under the id of the connection, as far as it takes them. What the reader had handed on
-- before stays in front.
pub connection_delivers :
    (json : SerdeJson)
    → ReadsBack json
    → (id : RemoteId) (ms : List Message) (taken : ℕ) (out : BytesMut) (to_server : ToServer)
    → Fit json (take taken ms)
    → encode_all json (take taken ms) [] ≡ some out
    → (framed_reader id
        (map some
          (decode_all json
            (length (take taken ms))
            (framed_writer json ms (record { written = []; room = taken })).written).0)
        to_server).sent
      ≡ to_server.sent ++ map (incoming id) (take to_server.room (take taken ms))
connection_delivers json law id ms taken out to_server fit h =
    let (bytes, e, r) = decode_all-encode_all json law (take taken ms) fit [] out h in
    let w : (framed_writer json ms (record { written = []; room = taken })).written ≡ bytes ++ [] =
      framed_writer-take json ms [] out taken h ∙ e ∙ sym (append-nil bytes) in
    ap
      (λ b.
        (framed_reader id (map some (decode_all json (length (take taken ms)) b).0) to_server).sent)
      w
    ∙ ap (λ (p : List Message × BytesMut). (framed_reader id (map some p.0) to_server).sent) (r [])
    ∙ framed_reader-take id (take taken ms) to_server.sent to_server.room
