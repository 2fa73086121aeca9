-- ===== src/Tests/History.antt =====
-- A history of three nodes that run the server of src/server.rs from their start: an election, a
-- command from a client, and the follower that takes it.
use mini_raft.Prelude.{◌≡◌, refl, inl, inr, true, some, [], ◌∷◌, pos, negsuc, as_i32}
use mini_raft.Protocol.{
  LogCommand, LogEntry, ClientRequest, Message, RemoteId, peer, client, append_entries_type,
  request_vote_type, request_vote_response_type, client_request_type,
}
use mini_raft.StateMachine.{SimpleStateMachine, simple_state_machine}
use mini_raft.Server.State.{new}
use mini_raft.Server.Action.{send}
use mini_raft.Server.Loop.{Event, rpc, timer, run}
use mini_raft.Server.Safety.Terms.{HasTerms}
use mini_raft.Server.Safety.Requests.{HasRequests}
use mini_raft.Cluster.{Cluster}
use mini_raft.Cluster.History.{Histories, Possible, begun, hears, none_yet, with_event, nodes_after}
use mini_raft.Cluster.Safety.{IsOutside, started, Possible-HasTerms, Possible-HasRequests}
use mini_raft.Tests.{empty_store}
use mini_raft.Tests.Pipelined.{three_nodes}

-- What a node makes of its history.
abbrev three_started : Cluster SimpleStateMachine
three_started = started (λ _. three_nodes) empty_store (λ _. 32) (λ _. 0)

abbrev heard : RemoteId → Message → Event
heard from msg = rpc 8 (some (record { from = from; msg = msg }))

abbrev vote_asked : Message
vote_asked =
    request_vote_type
      (record { term = 1; candidate_id = 1; last_log_index = pos 0; last_log_term = 0 })

-- A vote carries the voter's own term.
abbrev vote : Message
vote = request_vote_response_type (record { term = 0; vote_granted = true })

abbrev asked_to_set : ClientRequest
asked_to_set = record { command = LogCommand.set "key" "value"; client_id = 67; request_id = 68 }

abbrev WasAsked : ClientRequest → Type 0
WasAsked request = request ≡ asked_to_set

abbrev entry : LogEntry
entry = record {
  term = 1;
  command = LogCommand.set "key" "value";
  index = 0;
  client_id = 67;
  request_id = 68;
}

abbrev entry_sent : Message
entry_sent = append_entries_type (record {
  term = 1;
  leader_id = 1;
  prev_log_index = negsuc 0;
  prev_log_term = 0;
  entries = entry ∷ [];
  leader_commit = negsuc 0;
})

-- Node 1 stands for election, nodes 2 and 3 hear of it, and node 1 hears their votes.
abbrev stood : Histories
stood = with_event 1 (timer 7) none_yet

abbrev both_heard : Histories
both_heard =
    with_event 3 (heard (peer 1) vote_asked) (with_event 2 (heard (peer 1) vote_asked) stood)

abbrev elected : Histories
elected = with_event 1 (heard (peer 3) vote) (with_event 1 (heard (peer 2) vote) both_heard)

-- A client asks it, and node 2 hears what it sends.
abbrev served : Histories
served = with_event 1 (heard (client 67) (client_request_type asked_to_set)) elected

abbrev followed : Histories
followed = with_event 2 (heard (peer 1) entry_sent) served

abbrev after : Histories → Cluster SimpleStateMachine
after = nodes_after (λ _. 0) three_started

followed-Possible : Possible (λ _. 0) three_started (IsOutside WasAsked) followed
unfolding run new send as_i32
followed-Possible =
    hears 2 (heard (peer 1) entry_sent)
      (hears 1 (heard (client 67) (client_request_type asked_to_set))
        (hears 1 (heard (peer 3) vote)
          (hears 1 (heard (peer 2) vote)
            (hears 3 (heard (peer 1) vote_asked)
              (hears 2 (heard (peer 1) vote_asked) (hears 1 (timer 7) begun tt)
                (inr (1, inl refl), tt))
              (inr (1, inl refl), tt))
            (inr (2, inl refl), tt))
          (inr (3, inl refl), tt))
        (inl refl, tt))
      (inr (1, inr (inr (inr (inl refl)))), tt)

-- The follower has the command.
followed-log : (after followed 2).log ≡ entry ∷ []
unfolding run new send
followed-log = refl

Possible-HasTerms_example : HasTerms (after followed 2)
Possible-HasTerms_example =
    Possible-HasTerms (λ _. three_nodes) empty_store (λ _. 32) (λ _. 0) WasAsked followed-Possible 2

Possible-HasRequests_example : HasRequests WasAsked (after followed 2)
Possible-HasRequests_example =
    Possible-HasRequests (λ _. three_nodes) empty_store (λ _. 32) (λ _. 0) WasAsked
      followed-Possible 2
