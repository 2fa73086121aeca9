-- ===== src/Codec/Tests.antt =====
-- The theorems on src/codec.rs at concrete messages, with a JSON that knows greetings only.
use mini_raft.Prelude.{
  ℕ, ◌<◌, length, u32_size, ◌≡◌, refl, Option, none, some, List, [], ◌∷◌, ◌++◌, arith,
}
use mini_raft.Protocol.{Message, hello_type}
use mini_raft.Codec.{BytesMut, SerdeJson, ReadsBack, decoded, encode, decode, split_frame}
use mini_raft.Codec.Stream.{encode_all, Framed, decode-append, decode_all-encode_all}

abbrev greeting : ℕ → Message
greeting n = hello_type (record { id = n })

abbrev write_greeting : Message → Option BytesMut
write_greeting (hello_type h) = some (123 ∷ h.id ∷ 125 ∷ [])
write_greeting _ = none

abbrev read_greeting : BytesMut → Option Message
read_greeting (_ ∷ n ∷ _ ∷ []) = some (greeting n)
read_greeting _ = none

abbrev greetings : SerdeJson
greetings = record { to_vec = write_greeting; from_slice = read_greeting }

greetings-ReadsBack : ReadsBack greetings
greetings-ReadsBack (hello_type h) payload w = ground arith
greetings-ReadsBack _ payload w = cc w

decode-append_example :
    decode greetings ((0 ∷ 0 ∷ 0 ∷ 3 ∷ 123 ∷ 7 ∷ 125 ∷ 9 ∷ []) ++ 8 ∷ [])
    ≡ (decoded (greeting 7), (9 ∷ []) ++ 8 ∷ [])
unfolding decode split_frame
decode-append_example =
    decode-append greetings (0 ∷ 0 ∷ 0 ∷ 3 ∷ 123 ∷ 7 ∷ 125 ∷ 9 ∷ []) (8 ∷ [])
      {d = decoded (greeting 7)} (λ e. cc e) refl

abbrev two_greetings : List Message
two_greetings = greeting 7 ∷ greeting 8 ∷ []

abbrev two_frames : BytesMut
two_frames = 0 ∷ 0 ∷ 0 ∷ 3 ∷ 123 ∷ 7 ∷ 125 ∷ 0 ∷ 0 ∷ 0 ∷ 3 ∷ 123 ∷ 8 ∷ 125 ∷ []

greeting-length :
    (n : ℕ) (payload : BytesMut)
    → write_greeting (greeting n) ≡ some payload
    → length payload < u32_size
greeting-length n payload w = ground arith

decode_all-encode_all_example : Framed greetings two_greetings [] two_frames
unfolding encode_all encode
decode_all-encode_all_example =
    decode_all-encode_all greetings greetings-ReadsBack two_greetings
      (greeting-length 7, (greeting-length 8, tt)) [] two_frames refl
