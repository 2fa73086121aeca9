-- ===== src/Codec/Frames.antt =====
-- About one frame of src/codec.rs: what `encode` writes and what `decode` makes of the whole of it or
-- of a part.
use mini_raft.Prelude.{
  ℕ, ◌+◌, ◌≤◌, ◌<◌, ◌≡◌, refl, ap, ◌∙◌, none, some, ◌++◌, append_assoc, length, take, length-append,
  length-take, take-take, dec_lt, lt→ltb, le→not-ltb, take_at, drop_at, u32_size, as_u32_small,
  arith,
}
use mini_raft.Protocol.{Message}
use mini_raft.Codec.{
  BytesMut, SerdeJson, ReadsBack, incomplete, decoded, be_bytes, from_be_bytes, encode, decode,
  split_frame,
}

-- A payload behind its length.
abbrev pub frame_of : BytesMut → BytesMut
frame_of payload = be_bytes (length payload) ++ payload

pub from_be_bytes-be_bytes : (n : ℕ) → n < u32_size → from_be_bytes (be_bytes n) ≡ n
from_be_bytes-be_bytes n h = omega arith

pub encode-frame_of :
    (json : SerdeJson) (m : Message) (payload dst : BytesMut)
    → json.to_vec m ≡ some payload
    → length payload < u32_size
    → encode json m dst ≡ some (dst ++ frame_of payload)
unfolding encode
encode-frame_of json m payload dst w h =
    rw (encode, w)
      (ap some (
        rw (as_u32_small (length payload) h)
          (append_assoc dst (be_bytes (length payload)) payload)))

pub encode-none :
    (json : SerdeJson) (m : Message) (dst : BytesMut)
    → json.to_vec m ≡ none
    → encode json m dst ≡ none
unfolding encode
encode-none json m dst n = rw (encode, n) refl

-- The three ways of `decode`.
pub decode_short :
    (json : SerdeJson) (src : BytesMut) → length src < 4 → decode json src ≡ (incomplete, src)
unfolding decode
decode_short json src h = rw (lt→ltb (length src) 4 h) refl

pub decode_waits :
    (json : SerdeJson) (src : BytesMut)
    → 4 ≤ length src
    → length src < 4 + from_be_bytes (take 4 src)
    → decode json src ≡ (incomplete, src)
unfolding decode
decode_waits json src h l =
    rw (le→not-ltb (length src) 4 h, lt→ltb (length src) (4 + from_be_bytes (take 4 src)) l) refl

pub decode_splits :
    (json : SerdeJson) (src : BytesMut)
    → 4 + from_be_bytes (take 4 src) ≤ length src
    → decode json src ≡ split_frame json (4 + from_be_bytes (take 4 src)) src
unfolding decode
decode_splits json src h =
    rw
      (
        le→not-ltb (length src) 4 (omega arith),
        le→not-ltb (length src) (4 + from_be_bytes (take 4 src)) h,
      )
      refl

length-frame_of : (payload : BytesMut) → length (frame_of payload) ≡ 4 + length payload
length-frame_of payload = omega (arith, length-append (be_bytes (length payload)) payload)

split_frame-frame_of :
    (json : SerdeJson)
    → ReadsBack json
    → (m : Message) (payload rest : BytesMut) → json.to_vec m ≡ some payload
    → {n : ℕ} → n ≡ length (frame_of payload)
    → split_frame json n (frame_of payload ++ rest) ≡ (decoded m, rest)
unfolding split_frame
split_frame-frame_of json law m payload rest w {n} e =
    rw (take_at (frame_of payload) rest n e, drop_at (frame_of payload) rest n e, law m payload w)
      refl

pub decode-frame_of :
    (json : SerdeJson)
    → ReadsBack json
    → (m : Message) (payload rest : BytesMut) → json.to_vec m ≡ some payload
    → length payload < u32_size
    → decode json (frame_of payload ++ rest) ≡ (decoded m, rest)
decode-frame_of json law m payload rest w h =
    let e = from_be_bytes-be_bytes (length payload) h in
    let l = length-frame_of payload in
    decode_splits json (frame_of payload ++ rest)
      (omega (arith, e, l, length-append (frame_of payload) rest))
    ∙ split_frame-frame_of json law m payload rest w (omega (arith, e, l))

decode-take :
    (json : SerdeJson) (payload : BytesMut) (n : ℕ)
    → length payload < u32_size
    → n < length (frame_of payload)
    → decode json (take n (frame_of payload)) ≡ (incomplete, take n (frame_of payload))
decode-take json payload n h l =
    let k = length-take n (frame_of payload) in
    elim (dec_lt n 4) [
      | yes s ↦ decode_short json (take n (frame_of payload)) (omega (arith, k))
      | no s ↦ decode_waits json (take n (frame_of payload)) (omega (arith, k)) (
          rw
            (
              take-take 4 n (frame_of payload) (omega arith),
              from_be_bytes-be_bytes (length payload) h,
            )
            (omega (arith, k, length-frame_of payload)))
    ]

-- A message whose JSON is shorter than 4 GiB is written as its length and its JSON. A decoder that
-- has only a part of that, whichever, yields nothing yet and keeps what it has.
pub decode-encode_part :
    (json : SerdeJson) (m : Message) (payload dst : BytesMut)
    → json.to_vec m ≡ some payload
    → length payload < u32_size
    → (encode json m dst ≡ some (dst ++ frame_of payload))
      × ((n : ℕ)
          → n < length (frame_of payload)
          → decode json (take n (frame_of payload)) ≡ (incomplete, take n (frame_of payload)))
decode-encode_part json m payload dst w h =
    (encode-frame_of json m payload dst w h, λ n l. decode-take json payload n h l)
