-- ===== src/Server/Loop/Wins.antt =====
-- An election that is won (`candidate`, src/server.rs).
use mini_raft.Prelude.{
  ℕ, zero, suc, ◌+◌, ◌≤◌, ◌<◌, ℤ, pos, as_i32, as_i32_small, dec_i32, i32_size, u32_size, ◌≡◌, refl,
  ap, ◌∙◌, true, Bool-cases, inl, inr, some, dec_lt, List, [], ◌∷◌, ◌++◌, length, if◌then◌else◌,
  arith,
}
use mini_raft.Protocol.{
  NodeId, LogEntry, Outgoing, RequestVote, RequestVoteResponse, request_vote_type, broadcast,
  request_vote_response_type, peer,
}
use mini_raft.StateMachine.{StateMachine}
use mini_raft.Server.State.{Server, Sender, RaftState}
use mini_raft.Server.Action.{Outcome, ok, ignore, or_panic, pure, send, send_to}
use mini_raft.Server.Roles.{become_candidate}
use mini_raft.Server.Apply.{last_index}
use mini_raft.Server.Vote.{
  last_term, last_log_index, send_request_vote_rpc_to_peers, handle_request_vote_response_rpc,
}
use mini_raft.Server.Vote.Election.{
  granted, granted_nil, granted_yes, granted_no, NoneNewer, quorum, with_role, role_after_few,
  role_after_enough, new_leader, reply_granted, reply_denied,
}
use mini_raft.Server.Steps.Rules.{after_ok, ignore_ok}
use mini_raft.Server.Loop.{
  Event, rpc, Left, is_candidate, is_leader, dispatch, recieve_rpc, candidate_loop, candidate_as,
  candidate,
}

-- Replies that come in one after the other, each with its time and its sender.
abbrev pub replies : List (ℕ × NodeId × RequestVoteResponse) → List Event
replies [] = []
replies ((now, from, msg) ∷ msgs) =
    rpc now (some (record { from = peer from; msg = request_vote_response_type msg }))
    ∷ replies msgs

abbrev pub votes_in : List (ℕ × NodeId × RequestVoteResponse) → List RequestVoteResponse
votes_in [] = []
votes_in ((_, _, msg) ∷ msgs) = msg ∷ votes_in msgs

-- The index that a request for votes gives for a log that is shorter than 2^31: that of its last entry,
-- and 0 for an empty one.
abbrev pub asked_index : List LogEntry → ℤ
asked_index [] = pos 0
asked_index (_ ∷ es) = pos (length es)

module _ {S : Type 0} where
  abbrev with_network : Sender → Server S → Server S
  with_network net t = record t { to_network = net }

  send_ignored :
      (room : ℕ) (o : Outgoing) (t : Server S)
      → (net : Sender) × (room ≤ net.room + 1)
        × (ignore (send_to room o) t ≡ (ok tt, with_network net t))
  unfolding send_to
  send_ignored zero o t = (t.to_network, omega arith, refl)
  send_ignored (suc r) o t = (_, omega arith, refl)

  last_log_index-asked :
      (log : List LogEntry) (t : Server S)
      → t.log ≡ log
      → length log < i32_size
      → last_log_index log t ≡ (ok (asked_index log), t)
  unfolding last_log_index last_index
  last_log_index-asked [] t e lt = refl
  last_log_index-asked (x ∷ xs) t e lt =
      ap (λ l. or_panic (dec_i32 (as_i32 (length l))) t) e
      ∙ ap (λ z. or_panic (dec_i32 z) t) (as_i32_small (suc (length xs)) lt)

  -- The request for votes of a candidate in its term.
  abbrev pub request_in : Server S → RequestVote
  request_in t = record {
    term = t.current_term;
    candidate_id = t.id;
    last_log_index = asked_index t.log;
    last_log_term = last_term t.log;
  }

  abbrev pub vote_request : Server S → Outgoing
  vote_request t = record { dest = broadcast; msg = request_vote_type (request_in t) }

  pub request_sent :
      (t : Server S)
      → length t.log < i32_size
      → send_request_vote_rpc_to_peers t ≡ ignore (send (vote_request t)) t
  unfolding send_request_vote_rpc_to_peers
  request_sent t lt = after_ok _ (last_log_index-asked t.log t refl lt)

  -- Whether the request is sent or not, nothing but the channel changes.
  asked :
      (t : Server S)
      → length t.log < i32_size
      → (net : Sender) × (t.to_network.room ≤ net.room + 1)
        × (send_request_vote_rpc_to_peers t ≡ (ok tt, with_network net t))
  unfolding send
  asked t lt =
      let (net, spent, f) = send_ignored t.to_network.room (vote_request t) t in
      (net, spent, request_sent t lt ∙ f)

-- A candidate that stands for the next term.
abbrev pub standing : {S : Type 0} → ℕ → Server S → Server S
standing now t = record t {
  inner = record t.inner {
    current_term = t.current_term + 1;
    last_heartbeat = now;
    voted_for = some t.id;
  };
}

pub become_candidate_stands :
    {S : Type 0} (now : ℕ) (t : Server S)
    → t.current_term + 1 < u32_size
    → become_candidate now t ≡ (ok tt, standing now t)
unfolding become_candidate
become_candidate_stands now t fits = ground arith

-- The candidate t as a new leader.
abbrev pub led : {S : Type 0} → Sender → Server S → Server S
led net t = record t { inner = record t.inner { state = new_leader t }; to_network = net }

-- How the loop of a candidate ends when it has won after n rounds or fewer: it is left, and the node
-- leads.
abbrev pub IsWon : {S : Type 0} → ℕ → Server S → Outcome Left × Server S → Type 0
IsWon n t r =
    (at : ℕ) × (rest : List Event) × (net : Sender) × (t.to_network.room ≤ net.room + n)
    × (r ≡ (ok (some (at, rest)), led net t))

module _ {S : Type 0} ⦃sm : StateMachine S⦄ where
  -- A round that brings a reply.
  vote_round :
      (now : ℕ) (from : NodeId) (msg : RequestVoteResponse) (es : List Event) (t w : Server S)
      (net : Sender)
      → send_request_vote_rpc_to_peers t ≡ (ok tt, with_network net t)
      → handle_request_vote_response_rpc msg (with_network net t) ≡ (ok tt, w)
      → candidate_loop
          (rpc now (some (record { from = peer from; msg = request_vote_response_type msg })) ∷ es)
          t
        ≡ (if is_candidate w.state then candidate_loop es else pure (some (now, es))) w
  unfolding candidate_loop recieve_rpc dispatch
  vote_round now from msg es t w net a h =
      after_ok _ a
      ∙ after_ok _ (ignore_ok (handle_request_vote_response_rpc msg) (with_network net t) w h)

  -- After a round more.
  IsWon-of :
      (n : ℕ) (t : Server S) (role : RaftState) (net : Sender) (r q : Outcome Left × Server S)
      → t.to_network.room ≤ net.room + 1
      → r ≡ q
      → IsWon n (with_role role (with_network net t)) q
      → IsWon (suc n) t r
  IsWon-of n t role net r q spent e (at, rest, net', more, f) = (at, rest, net', omega arith, e ∙ f)

  -- Enough replies.
  candidate_loop-IsWon :
      (msgs : List (ℕ × NodeId × RequestVoteResponse)) (es : List Event) (t : Server S) (v : ℕ)
      → t.state ≡ RaftState.candidate v
      → v < quorum t
      → t.config.total_nodes < u32_size
      → length t.log < i32_size
      → NoneNewer t.current_term (votes_in msgs)
      → quorum t ≤ v + granted (votes_in msgs)
      → IsWon (length msgs) t (candidate_loop (replies msgs ++ es) t)
  unfolding is_candidate is_leader
  candidate_loop-IsWon [] es t v role few nodes small old enough =
      absurd (omega (arith, granted_nil))
  candidate_loop-IsWon ((now, from, msg) ∷ msgs) es t v role few nodes small old enough =
      let (net, spent, a) = asked t small in
      let u = with_network net t in
      elim (Bool-cases msg.vote_granted) [
        | inr denied_vote ↦
            IsWon-of (length msgs) t t.state net _ _ spent
              (vote_round now from msg (replies msgs ++ es) t u net a
                  (reply_denied msg u v role old.0 denied_vote)
                ∙ ap
                    (λ r.
                      (if is_candidate r
                          then candidate_loop (replies msgs ++ es)
                          else pure (some (now, replies msgs ++ es)))
                        u)
                    role)
              (candidate_loop-IsWon msgs es u v role few nodes small old.1
                (omega (arith, granted_no msg (votes_in msgs) denied_vote)))
        | inl granted_vote ↦
            let heard = reply_granted msg u v role few nodes old.0 granted_vote in
            let counted = granted_yes msg (votes_in msgs) granted_vote in
            elim (dec_lt (suc v) (quorum t)) [
              | yes still ↦
                  let w = with_role (RaftState.candidate (suc v)) u in
                  IsWon-of (length msgs) t (RaftState.candidate (suc v)) net _ _ spent
                    (vote_round now from msg (replies msgs ++ es) t w net a
                      (heard ∙ ap (λ r. (ok tt, with_role r u)) (role_after_few (suc v) u still)))
                    (candidate_loop-IsWon msgs es w (suc v) refl still nodes small old.1
                      (omega (arith, counted)))
              | no over ↦
                  let w = with_role (new_leader u) u in
                  (
                    now,
                    replies msgs ++ es,
                    net,
                    omega arith,
                    vote_round now from msg (replies msgs ++ es) t w net a (
                        heard
                        ∙ ap (λ r. (ok tt, with_role r u))
                            (role_after_enough (suc v) u (omega arith))),
                  )
            ]
      ]

  -- The whole of it.
  pub candidate_lem :
      (now : ℕ) (msgs : List (ℕ × NodeId × RequestVoteResponse)) (es : List Event) (t : Server S)
      (v : ℕ)
      → t.state ≡ RaftState.candidate v
      → v < quorum t
      → t.config.total_nodes < u32_size
      → length t.log < i32_size
      → t.current_term + 1 < u32_size
      → NoneNewer (t.current_term + 1) (votes_in msgs)
      → quorum t ≤ v + granted (votes_in msgs)
      → IsWon (length msgs) (standing now t) (candidate now (replies msgs ++ es) t)
  unfolding candidate candidate_as
  candidate_lem now msgs es t v role few nodes small fits old enough =
      let w = standing now t in
      let events = replies msgs ++ es in
      let (at, rest, net, more, e) =
        candidate_loop-IsWon msgs es w v role few nodes small old enough in
      (
        at,
        rest,
        net,
        more,
        ap (λ r. candidate_as r now events t) role
            ∙ after_ok _ (become_candidate_stands now t fits)
            ∙ e,
      )

  -- A candidate with room for another term, whose log and configuration are within the range of the
  -- casts, that then hears replies of no later term than the new one, of which enough grant the vote:
  -- it stands in the next term, leaves its loop, and leads in that term. It does so whatever else
  -- would come, and whether its requests for votes are sent or lost.
  pub candidate-IsWon :
      (now : ℕ) (msgs : List (ℕ × NodeId × RequestVoteResponse)) (es : List Event) (t : Server S)
      (v : ℕ)
      → t.state ≡ RaftState.candidate v
      → v < quorum t
      → t.config.total_nodes < u32_size
      → length t.log < i32_size
      → t.current_term + 1 < u32_size
      → NoneNewer (t.current_term + 1) (votes_in msgs)
      → quorum t ≤ v + granted (votes_in msgs)
      → (at : ℕ) × (rest : List Event) × ((candidate now (replies msgs ++ es) t).0
          ≡ ok (some (at, rest)))
        × (is_leader (candidate now (replies msgs ++ es) t).1.state ≡ true)
        × ((candidate now (replies msgs ++ es) t).1.current_term ≡ t.current_term + 1)
  unfolding is_leader
  candidate-IsWon now msgs es t v role few nodes small fits old enough =
      let (at, rest, net, more, e) =
        candidate_lem now msgs es t v role few nodes small fits old enough in
      (at, rest, ap (λ p. p.0) e, ap (λ p. is_leader p.1.state) e, ap (λ p. p.1.current_term) e)
