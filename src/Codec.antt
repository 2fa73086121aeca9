-- ===== src/Codec.antt =====
-- The framing of messages on a connection (src/codec.rs): `Codec` as an encoder and a decoder over
-- buffers of bytes. `serde_json` is a parameter. A buffer is what `BytesMut` holds; its capacity, and
-- so the call of `reserve`, has no part in the results.
pub mod Frames
pub mod Stream
mod Tests
use mini_raft.Prelude.{
  ℕ, ◌+◌, ◌*◌, ◌/◌, ◌%◌, ◌≡◌, String, Option, none, some, List, [], ◌∷◌, ◌++◌, length, take, drop,
  if◌then◌else◌, ltb, as_u32,
}
use mini_raft.Protocol.{
  Message, append_entries_type, append_entries_response_type, request_vote_type,
  request_vote_response_type, client_request_type, client_response_type, hello_type,
  hello_client_type,
}

abbrev pub BytesMut : Type 0
BytesMut = List ℕ

-- `serde_json::to_vec` and `serde_json::from_slice` at `Message`; `none` for an error.
pub record SerdeJson : Type 0 where
  pub to_vec : Message → Option BytesMut
  pub from_slice : BytesMut → Option Message

-- What is documented: a message that was written is read back.
abbrev pub ReadsBack : SerdeJson → Type 0
ReadsBack json =
    (m : Message) (payload : BytesMut)
    → json.to_vec m ≡ some payload
    → json.from_slice payload ≡ some m

unfoldable pub message_type : Message → String
message_type (append_entries_type _) = "AppendEntriesType"
message_type (append_entries_response_type _) = "AppendEntriesResponseType"
message_type (request_vote_type _) = "RequestVoteType"
message_type (request_vote_response_type _) = "RequestVoteResponseType"
message_type (client_request_type _) = "ClientRequestType"
message_type (client_response_type _) = "ClientResponseType"
message_type (hello_type _) = "HelloType"
message_type (hello_client_type _) = "HelloClientType"

-- `BytesMut::put_u32`: big-endian.
abbrev pub be_bytes : ℕ → BytesMut
be_bytes n = n / 16777216 % 256 ∷ n / 65536 % 256 ∷ n / 256 % 256 ∷ n % 256 ∷ []

abbrev pub put_u32 : ℕ → BytesMut → BytesMut
put_u32 n dst = dst ++ be_bytes n

-- `u32::from_be_bytes`, with the number read so far.
abbrev pub be_number : ℕ → BytesMut → ℕ
be_number n [] = n
be_number n (b ∷ bs) = be_number (n * 256 + b) bs

abbrev pub from_be_bytes : BytesMut → ℕ
from_be_bytes bs = be_number 0 bs

-- What a call of `decode` yields: `Ok(None)`, `Ok(Some(msg))` or an `Err`.
pub data Decoded : Type 0 where
  incomplete : Decoded
  decoded : Message → Decoded
  invalid_data : Decoded

-- `none` is an error, which comes before anything is written.
unfoldable pub encode : SerdeJson → Message → BytesMut → Option BytesMut
encode json item dst = elim (json.to_vec item) [
  | none ↦ none
  | some payload ↦ some (put_u32 (as_u32 (length payload)) dst ++ payload)
]

-- The buffer afterwards comes with the result: a frame that does not parse is gone, too.
unfoldable pub split_frame : SerdeJson → ℕ → BytesMut → Decoded × BytesMut
split_frame json frame_len src =
    let result : Decoded = elim (json.from_slice (drop 4 (take frame_len src))) [
      | none ↦ invalid_data
      | some msg ↦ decoded msg
    ] in
    (result, drop frame_len src)

unfoldable pub decode : SerdeJson → BytesMut → Decoded × BytesMut
unfolding split_frame
decode json src =
    if ltb (length src) 4
    then (incomplete, src)
    else let frame_len = 4 + from_be_bytes (take 4 src) in
      if ltb (length src) frame_len then (incomplete, src) else split_frame json frame_len src
