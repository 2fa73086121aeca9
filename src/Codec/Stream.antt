-- ===== src/Codec/Stream.antt =====
-- About a connection as a stream of frames (src/codec.rs): several messages written one after the
-- other, read back whatever the pieces in which the bytes arrive.
use mini_raft.Prelude.{
  ℕ, zero, suc, ◌+◌, ◌≤◌, ◌<◌, ◌≡◌, ◌≢◌, inl, inr, refl, sym, ap, ◌∙◌, Option, none, some,
  Option-cases, List, [], ◌∷◌, ◌++◌, append_assoc, append-nil, length, take, length-append,
  take-append_le, drop-append_le, dec_lt, u32_size, arith,
}
use mini_raft.Protocol.{Message}
use mini_raft.Codec.{
  BytesMut, SerdeJson, ReadsBack, Decoded, incomplete, decoded, invalid_data, from_be_bytes, encode,
  decode, split_frame,
}
use mini_raft.Codec.Frames.{
  frame_of, encode-frame_of, encode-none, decode-frame_of, decode_short, decode_waits,
  decode_splits,
}

-- Whatever `decode` yields for a frame, it yields when more bytes stand behind the frame.
split_frame-append :
    (json : SerdeJson) (src more : BytesMut) (n : ℕ)
    → n ≤ length src
    → {d : Decoded} {rest : BytesMut} → split_frame json n src ≡ (d, rest)
    → split_frame json n (src ++ more) ≡ (d, rest ++ more)
unfolding split_frame
split_frame-append json src more n h e =
    rw (take-append_le n src more h, drop-append_le n src more h) (ap (λ p. (p.0, p.1 ++ more)) e)

decode_splits-append :
    (json : SerdeJson) (src more : BytesMut) {d : Decoded} {rest : BytesMut}
    → 4 + from_be_bytes (take 4 src) ≤ length src
    → decode json src ≡ (d, rest)
    → decode json (src ++ more) ≡ (d, rest ++ more)
decode_splits-append json src more h e =
    let t = take-append_le 4 src more (omega arith) in
    decode_splits json (src ++ more) (omega (arith, ap from_be_bytes t, length-append src more))
    ∙ rw t (
        split_frame-append json src more (4 + from_be_bytes (take 4 src)) h
          (sym (decode_splits json src h) ∙ e))

-- If `decode` yields a message or refuses a frame, it does the same when more bytes have come behind
-- it, and leaves those in the buffer behind the rest: frames do not depend on how the bytes arrive.
pub decode-append :
    (json : SerdeJson) (src more : BytesMut) {d : Decoded} {rest : BytesMut}
    → d ≢ incomplete
    → decode json src ≡ (d, rest)
    → decode json (src ++ more) ≡ (d, rest ++ more)
decode-append json src more nd e = elim (dec_lt (length src) 4) [
  | yes s ↦ absurd (nd (sym (ap (λ p. p.0) (sym (decode_short json src s) ∙ e))))
  | no s ↦ elim (dec_lt (length src) (4 + from_be_bytes (take 4 src))) [
    | yes w ↦ absurd (nd (sym (ap (λ p. p.0) (sym (decode_waits json src (omega arith) w) ∙ e))))
    | no w ↦ decode_splits-append json src more (omega arith) e
  ]
]

-- Every message of a list, written in turn.
unfoldable pub encode_all : SerdeJson → List Message → BytesMut → Option BytesMut
unfolding encode
encode_all json [] dst = some dst
encode_all json (m ∷ ms) dst = elim (encode json m dst) [
  | none ↦ none
  | some dst₁ ↦ encode_all json ms dst₁
]

-- What `n` calls of `decode` yield while there are messages, and the bytes that are left.
unfoldable pub decode_all : SerdeJson → ℕ → BytesMut → List Message × BytesMut
decode_all json zero src = ([], src)
decode_all json (suc n) src =
    let (d, rest) = decode json src in
    elim d [
      | decoded m ↦ let (ms, left) = decode_all json n rest in (m ∷ ms, left)
      | incomplete ↦ ([], rest)
      | invalid_data ↦ ([], rest)
    ]

-- No message of the list takes 4 GiB or more.
abbrev pub Fit : SerdeJson → List Message → Type 0
Fit json [] = Unit
Fit json (m ∷ ms) =
    ((payload : BytesMut) → json.to_vec m ≡ some payload → length payload < u32_size) × Fit json ms

decode_all-suc :
    (json : SerdeJson) (n : ℕ) (src : BytesMut) {m : Message} {rest left : BytesMut}
    {ms : List Message}
    → decode json src ≡ (decoded m, rest)
    → decode_all json n rest ≡ (ms, left)
    → decode_all json (suc n) src ≡ (m ∷ ms, left)
unfolding decode_all
decode_all-suc json n src e r = rw (decode_all, ap (λ p. p.0) e, ap (λ p. p.1) e, r) refl

-- The bytes behind `dst` are frames that yield the messages.
abbrev pub Framed : SerdeJson → List Message → BytesMut → BytesMut → Type 0
Framed json ms dst out =
    (bytes : BytesMut) × (out ≡ dst ++ bytes)
    × ((rest : BytesMut) → decode_all json (length ms) (bytes ++ rest) ≡ (ms, rest))

Framed-cons :
    (json : SerdeJson)
    → ReadsBack json
    → (m : Message) (ms : List Message) (payload dst out : BytesMut) → json.to_vec m ≡ some payload
    → length payload < u32_size
    → Framed json ms (dst ++ frame_of payload) out
    → Framed json (m ∷ ms) dst out
Framed-cons json law m ms payload dst out w l (bytes, o, r) =
    let f = frame_of payload in
    (
      f ++ bytes,
      o ∙ append_assoc dst f bytes,
      λ rest.
          decode_all-suc json (length ms) ((f ++ bytes) ++ rest)
            (rw (append_assoc f bytes rest)
              (decode-frame_of json law m payload (bytes ++ rest) w l))
            (r rest),
    )

pub encode_all-cons :
    (json : SerdeJson) (m : Message) (ms : List Message) (dst : BytesMut) {d : BytesMut}
    → encode json m dst ≡ some d
    → encode_all json (m ∷ ms) dst ≡ encode_all json ms d
unfolding encode_all
encode_all-cons json m ms dst e = rw (encode_all, e) refl

pub encode_all-none :
    (json : SerdeJson) (m : Message) (ms : List Message) (dst : BytesMut)
    → encode json m dst ≡ none
    → encode_all json (m ∷ ms) dst ≡ none
unfolding encode_all
encode_all-none json m ms dst e = rw (encode_all, e) refl

-- Messages, each with a JSON shorter than 4 GiB and a `serde_json` that reads back what it wrote:
-- what is written for them, one after the other, is decoded to the same messages in that order, and
-- whatever bytes follow them are left in the buffer.
pub decode_all-encode_all :
    (json : SerdeJson)
    → ReadsBack json
    → (ms : List Message) → Fit json ms
    → (dst out : BytesMut) → encode_all json ms dst ≡ some out
    → Framed json ms dst out
unfolding encode_all decode_all
decode_all-encode_all json law [] _ dst out e = ([], cc (e, append-nil dst), λ rest. refl)
decode_all-encode_all json law (m ∷ ms) (fit, fits) dst out e =
    elim (Option-cases (json.to_vec m)) [
      | inl n ↦ cc (e, encode_all-none json m ms dst (encode-none json m dst n))
      | inr (payload, w) ↦ Framed-cons json law m ms payload dst out w (fit payload w) (
          decode_all-encode_all json law ms fits (dst ++ frame_of payload) out (
            sym
              (encode_all-cons json m ms dst (encode-frame_of json m payload dst w (fit payload w)))
            ∙ e))
    ]
