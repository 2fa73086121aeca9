-- ===== src/Tests/Runs.antt =====
-- Runs of `Server::run` (src/server.rs) over concrete events, of one node and of two.
use mini_raft.Prelude.{
  ℕ, ◌≡◌, ◌≢◌, refl, true, false, inl, inr, some, List, [], ◌∷◌, ◌++◌, ◌≤◌, pos, negsuc, arith, ◌+◌,
}
use mini_raft.Protocol.{
  NodeId, RequestVoteResponse, Message, request_vote_type, peer, client, LogCommand, ClientRequest,
  client_request_type,
}
use mini_raft.StateMachine.{SimpleStateMachine, simple_state_machine}
use mini_raft.Server.State.{Server, candidate, new}
use mini_raft.Server.Action.{ok, unfinished, send}
use mini_raft.Server.Loop.{Event, rpc, timer, run, is_leader}
use mini_raft.Server.Loop
use mini_raft.Server.Vote.Election.{granted}
use mini_raft.Server.Loop.Wins.{votes_in, replies, candidate-IsWon}
use mini_raft.Server.Steps.Ends.{run_ends}
use mini_raft.Server.Safety.Shape.{HasShape, run-HasShape}
use mini_raft.Cluster.{IsIn, Reaches, Cluster, Reaches-run, replaced, start}
use mini_raft.Cluster.Safety.{IsOutside, started}
use mini_raft.Tests.{entry, node, one_entry, story, five_nodes, empty_store}

run_ends_example : (run 0 story one_entry).0 ≢ unfinished
run_ends_example = run_ends 0 story one_entry

run-HasShape_example : HasShape (run 0 story one_entry).1
run-HasShape_example = run-HasShape 0 story one_entry (record { role = tt; marks = refl })

-- A client asks a leader.
abbrev asked_to_set : ClientRequest
asked_to_set = record { command = LogCommand.set "key" "value"; client_id = 67; request_id = 68 }

abbrev pub asking : List Event
asking =
    timer 3
    ∷ rpc 4 (some (record { from = client 67; msg = client_request_type asked_to_set }))
    ∷ timer 5
    ∷ []

-- Five nodes that have just been made. The third is asked by a client; the first stands for election,
-- and the second hears of that.
abbrev pub fresh_nodes : Cluster SimpleStateMachine
fresh_nodes = started (λ _. five_nodes) empty_store (λ _. 32) (λ _. 0)

abbrev pub WasAsked : ClientRequest → Type 0
WasAsked request = request ≡ asked_to_set

abbrev third_asked : Cluster SimpleStateMachine
third_asked = replaced 3 (run 0 asking (fresh_nodes 3)).1 fresh_nodes

abbrev pub first_stood : Cluster SimpleStateMachine
first_stood = replaced 1 (run 0 (timer 7 ∷ []) (third_asked 1)).1 third_asked

abbrev pub vote_asked : Message
vote_asked =
    request_vote_type
      (record { term = 1; candidate_id = 1; last_log_index = pos 0; last_log_term = 0 })

vote_asked-IsIn : IsIn vote_asked (first_stood 1).to_network.sent
unfolding run new send
vote_asked-IsIn = inl refl

pub first_stood-Reaches : Reaches (IsOutside WasAsked) fresh_nodes first_stood
first_stood-Reaches =
    Reaches-run 1 0 (timer 7 ∷ []) tt (Reaches-run 3 0 asking (inl refl, tt) start)

abbrev pub second_heard : Cluster SimpleStateMachine
second_heard =
    replaced 2
      (run 0 (rpc 8 (some (record { from = peer 1; msg = vote_asked })) ∷ []) (first_stood 2)).1
      first_stood

second_heard-Reaches : Reaches (IsOutside WasAsked) fresh_nodes second_heard
second_heard-Reaches =
    Reaches-run 2 0 (rpc 8 (some (record { from = peer 1; msg = vote_asked })) ∷ [])
      (inr (1, vote_asked-IsIn), tt) first_stood-Reaches

-- A candidate of five nodes to which two others reply.
abbrev standing_node : Server SimpleStateMachine
standing_node = node (candidate 1) 1 (negsuc 0) (entry 1 0 ∷ [])

abbrev two_votes : List (ℕ × NodeId × RequestVoteResponse)
two_votes =
    (3, 2, record { term = 2; vote_granted = true })
    ∷ (4, 4, record { term = 1; vote_granted = false })
    ∷ (5, 5, record { term = 2; vote_granted = true })
    ∷ []

enough_votes : 3 ≤ 1 + granted (votes_in two_votes)
unfolding granted
enough_votes = omega arith

candidate-IsWon_example :
    (at : ℕ) × (rest : List Event) × ((Loop.candidate 2
        (replies two_votes ++ timer 6 ∷ [])
        standing_node).0
      ≡ ok (some (at, rest)))
    × (is_leader (Loop.candidate 2 (replies two_votes ++ timer 6 ∷ []) standing_node).1.state
        ≡ true)
    × ((Loop.candidate 2 (replies two_votes ++ timer 6 ∷ []) standing_node).1.current_term ≡ 2)
candidate-IsWon_example =
    candidate-IsWon 2 two_votes (timer 6 ∷ []) standing_node 1 refl (omega arith) (omega arith)
      (omega arith) (omega arith) (omega arith, (omega arith, (omega arith, tt))) enough_votes
