-- ===== src/Tests/Elections.antt =====
-- An election with two winners (src/server.rs), among five nodes that have just started.
use mini_raft.Prelude.{pos, map, ◌++◌, ℕ, ◌≡◌, refl, true, negsuc, [], ◌∷◌, AllOf, arith}
use mini_raft.StateMachine.{SimpleStateMachine, simple_state_machine}
use mini_raft.Server.State.{Server, candidate, follower}
use mini_raft.Server.Action.{◌>>◌}
use mini_raft.Server.Vote.{vote_reply, handle_request_vote_rpc}
use mini_raft.Server.Loop
use mini_raft.Server.Loop.{is_leader}
use mini_raft.Server.Loop.Wins.{request_in, vote_request, standing}
use mini_raft.Cluster.Elections.{CanVote, Voters, votes_for, two_leaders}
use mini_raft.Protocol.{peer}
use mini_raft.Server.Append.{handle_append_entries}
use mini_raft.Server.Apply.Replay.{replay}
use mini_raft.Server.Client.{handle_set_command}
use mini_raft.Server.Client.Sent.{command_entry}
use mini_raft.Cluster.Lost.{first_notice, committed_lost}
use mini_raft.Tests.{node, entry, empty_store, simple-IsReliable}

abbrev first : Server SimpleStateMachine
first = node (candidate 0) 0 (negsuc 0) []

abbrev second : Server SimpleStateMachine
second = record (node (candidate 0) 0 (negsuc 0) []) { id = 2 }

abbrev voter : Server SimpleStateMachine
voter = node follower 0 (negsuc 0) []

abbrev voters : Voters SimpleStateMachine
voters =
    (10, 3, record voter { id = 3 })
    ∷ (11, 4, record voter { id = 4 })
    ∷ (12, 5, record voter { id = 5 })
    ∷ []

voters-CanVote : AllOf (λ v. CanVote 1 v.2) voters
voters-CanVote = (can, (can, (can, tt)))
  where
    can : {n : ℕ} → CanVote 1 (record voter { id = n })
    can = record { room = 30; free = refl; old = omega arith; space = refl }

two_leaders_example :
    ((Loop.candidate 5 [] first).1.to_network.sent ≡ vote_request (standing 5 first) ∷ [])
    × ((Loop.candidate 6 [] second).1.to_network.sent ≡ vote_request (standing 6 second) ∷ [])
    × AllOf
        (λ v.
          ((handle_request_vote_rpc (request_in (standing 5 first))
              >> handle_request_vote_rpc (request_in (standing 6 second)))
            v.2).1.to_network.sent
          ≡ vote_reply 1 v.2.current_term true ∷ vote_reply 2 v.2.current_term true ∷ [])
        voters
    × (is_leader (Loop.candidate 5 (votes_for first voters) first).1.state ≡ true)
    × (is_leader (Loop.candidate 6 (votes_for second voters) second).1.state ≡ true)
    × ((Loop.candidate 5 (votes_for first voters) first).1.current_term
        ≡ (Loop.candidate 6 (votes_for second voters) second).1.current_term)
two_leaders_example =
    two_leaders 5 6 first second voters
      (record {
        room = 31;
        role = refl;
        nodes = omega arith;
        small = omega arith;
        fits = omega arith;
        space = refl;
      })
      (record {
        room = 31;
        role = refl;
        nodes = omega arith;
        small = omega arith;
        fits = omega arith;
        space = refl;
      })
      refl voters-CanVote (omega arith) (omega arith)

-- Node 1 has one entry, committed and applied; node 3 has one more, committed and applied as well.
abbrev lagging : Server SimpleStateMachine
lagging =
    let n = node (candidate 0) 1 (pos 0) (entry 1 0 ∷ []) in
    record n { inner = record n.inner { last_applied = pos 0 } }

abbrev ahead : Server SimpleStateMachine
ahead =
    let n = node follower 1 (pos 1) (entry 1 0 ∷ entry 1 1 ∷ []) in
    record n {
      id = 3;
      inner = record n.inner {
        last_applied = pos 1;
        state_machine = replay simple_state_machine n.log empty_store;
      };
    }

abbrev others_voting : Voters SimpleStateMachine
others_voting = (11, 4, record voter { id = 4 }) ∷ (12, 5, record voter { id = 5 }) ∷ []

abbrev now_leading : Server SimpleStateMachine
now_leading = (Loop.candidate 9 (votes_for lagging ((10, 3, ahead) ∷ others_voting)) lagging).1

abbrev having_voted : Server SimpleStateMachine
having_voted = (handle_request_vote_rpc (request_in (standing 9 lagging)) ahead).1

-- What node 3 makes of the new leader's first message.
abbrev overwritten : Server SimpleStateMachine
overwritten =
    (handle_append_entries (peer 1) (first_notice "k" "v" 5 6 now_leading 3).msg having_voted).1

committed_lost_example :
    (having_voted.to_network.sent ≡ vote_reply 1 1 true ∷ [])
    × (is_leader now_leading.state ≡ true)
    × ((handle_set_command "k" "v" 5 6 now_leading).1.to_network.sent
        ≡ now_leading.to_network.sent
          ++ map (first_notice "k" "v" 5 6 now_leading) (2 ∷ 3 ∷ 4 ∷ 5 ∷ []))
    × (overwritten.log ≡ entry 1 0 ∷ command_entry "k" "v" 5 6 now_leading ∷ [])
    × (overwritten.last_applied ≡ pos 1)
    × (overwritten.state_machine ≡ ahead.state_machine)
committed_lost_example =
    committed_lost simple-IsReliable "k" "v" 5 6 9 10 3 3 lagging ahead others_voting (entry 1 1)
      (record {
        room = 31;
        role = refl;
        nodes = omega arith;
        small = omega arith;
        fits = omega arith;
        space = refl;
      })
      (record {
        filled = omega arith;
        small = omega arith;
        last = refl;
        commit = refl;
        marks = refl;
        peers = (omega arith, (omega arith, (omega arith, (omega arith, (omega arith, tt)))));
      })
      (omega arith) (record { room = 30; free = refl; old = omega arith; space = refl })
      (can, (can, tt)) (omega arith)
      (record {
        rest = [];
        c = 2;
        start = empty_store;
        role = refl;
        log = refl;
        past = omega arith;
        inside = omega arith;
        small = omega arith;
        last = refl;
        commit = refl;
        store = refl;
      })
      (omega arith) (omega arith)
  where
    can : {n : ℕ} → CanVote 2 (record voter { id = n })
    can = record { room = 30; free = refl; old = omega arith; space = refl }
