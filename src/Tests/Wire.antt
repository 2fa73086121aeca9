-- ===== src/Tests/Wire.antt =====
-- A request for a vote that goes from the server of node 1 to that of node 2 (src/server.rs,
-- src/network.rs, src/codec.rs), with a JSON that knows such requests only.
use mini_raft.Prelude.{
  ℤ, ◌≡◌, refl, sym, subst, inl, Option, none, some, pos, negsuc, List, [], ◌∷◌, arith,
}
use mini_raft.Protocol.{Message, RequestVote, request_vote_type, peer, broadcast, to_node, Outgoing}
use mini_raft.StateMachine.{simple_state_machine}
use mini_raft.Codec.{BytesMut, SerdeJson, ReadsBack, encode}
use mini_raft.Codec.Stream.{encode_all, Fit}
use mini_raft.Network.Registry.{ConnectionRegistry}
use mini_raft.Network.Connect.Registered.{fresh}
use mini_raft.Network.Tasks.Delivers.{incoming}
use mini_raft.Network.EndToEnd.{carried, carried_in_order}
use mini_raft.Server.Action.{send}
use mini_raft.Server.State.{new}
use mini_raft.Server.Loop.{Event, rpc, run}
use mini_raft.Cluster.{Reaches}
use mini_raft.Cluster.Safety.{IsOutside}
use mini_raft.Cluster.Wire.{HasCome, Reaches-carried}
use mini_raft.Tests.Runs.{fresh_nodes, WasAsked, first_stood-Reaches, vote_asked, second_heard}

-- A request from a candidate whose last index is not negative.
abbrev write_ballot : RequestVote → ℤ → Option BytesMut
write_ballot v (pos i) = some (v.term ∷ v.candidate_id ∷ i ∷ v.last_log_term ∷ [])
write_ballot v (negsuc i) = none

abbrev write_request : Message → Option BytesMut
write_request (request_vote_type v) = write_ballot v v.last_log_index
write_request _ = none

abbrev read_request : BytesMut → Option Message
read_request (term ∷ candidate ∷ index ∷ last ∷ []) = some (
    request_vote_type (record {
      term = term;
      candidate_id = candidate;
      last_log_index = pos index;
      last_log_term = last;
    }))
read_request _ = none

abbrev requests : SerdeJson
requests = record { to_vec = write_request; from_slice = read_request }

write_ballot-read :
    (v : RequestVote) (z : ℤ) (payload : BytesMut)
    → write_ballot v z ≡ some payload
    → read_request payload ≡ some (request_vote_type (record v { last_log_index = z }))
write_ballot-read v (pos i) payload w =
    subst (λ p. read_request p ≡ some (request_vote_type (record v { last_log_index = pos i })))
      (some_same w) refl
  where
    some_same : {p q : BytesMut} → some p ≡ some q → p ≡ q
    some_same e = cc e
write_ballot-read v (negsuc i) payload w = cc w

requests-ReadsBack : ReadsBack requests
requests-ReadsBack (request_vote_type v) payload w = write_ballot-read v v.last_log_index payload w
requests-ReadsBack _ payload w = cc w

-- Node 1 knows nodes 2 and 3.
abbrev two_connected : ConnectionRegistry
two_connected = record { peer_registry = (2, fresh 32) ∷ (3, fresh 32) ∷ []; client_registry = [] }

abbrev posted : List Outgoing
posted = record { dest = broadcast; msg = vote_asked } ∷ []

vote_asked-Fit : Fit requests (vote_asked ∷ [])
vote_asked-Fit = ((λ payload w. ground arith), tt)

arrived :
    (carried requests
      (peer 1)
      (peer 2)
      posted
      5
      two_connected
      (record { sent = []; room = 7 })).sent
    ≡ incoming (peer 1) vote_asked ∷ []
unfolding encode_all encode
arrived =
    carried_in_order requests requests-ReadsBack (peer 1) (peer 2) posted 32 5 two_connected
      (0 ∷ 0 ∷ 0 ∷ 4 ∷ 1 ∷ 1 ∷ 0 ∷ 0 ∷ []) (record { sent = []; room = 7 })
      ((λ e. absurd (omega arith), tt), (tt, tt)) refl vote_asked-Fit refl

-- One for all, one for node 3, and one for node 2.
abbrev posted_more : List Outgoing
posted_more =
    record { dest = broadcast; msg = vote_asked }
    ∷ record { dest = to_node 3; msg = vote_asked }
    ∷ record { dest = to_node 2; msg = vote_asked }
    ∷ []

carried_in_order_example :
    (carried requests
      (peer 1)
      (peer 2)
      posted_more
      5
      two_connected
      (record { sent = []; room = 7 })).sent
    ≡ incoming (peer 1) vote_asked ∷ incoming (peer 1) vote_asked ∷ []
unfolding encode_all encode
carried_in_order_example =
    carried_in_order requests requests-ReadsBack (peer 1) (peer 2) posted_more 32 5 two_connected
      (0 ∷ 0 ∷ 0 ∷ 4 ∷ 1 ∷ 1 ∷ 0 ∷ 0 ∷ 0 ∷ 0 ∷ 0 ∷ 4 ∷ 1 ∷ 1 ∷ 0 ∷ 0 ∷ [])
      (record { sent = []; room = 7 }) ((λ e. absurd (omega arith), tt), (tt, tt)) refl
      ((λ payload w. ground arith), ((λ payload w. ground arith), tt)) refl

abbrev hearing : List Event
hearing = rpc 8 (some (record { from = peer 1; msg = vote_asked })) ∷ []

Reaches-carried_example : Reaches (IsOutside WasAsked) fresh_nodes second_heard
unfolding encode_all encode run new send
Reaches-carried_example =
    Reaches-carried requests requests-ReadsBack 1 2 32 5 7 0 two_connected
      (0 ∷ 0 ∷ 0 ∷ 4 ∷ 1 ∷ 1 ∷ 0 ∷ 0 ∷ []) hearing ((λ e. absurd (omega arith), tt), (tt, tt)) refl
      vote_asked-Fit refl (subst (λ xs. HasCome xs vote_asked) (sym arrived) (inl refl), tt)
      first_stood-Reaches
