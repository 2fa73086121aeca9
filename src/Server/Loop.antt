-- ===== src/Server/Loop.antt =====
-- The event loop (src/server.rs): `recieve_rpc`, the loops of the three roles, and `run`. What
-- `tokio::select!` picks next is given as a list of events.
pub mod Wins
use mini_raft.Prelude.{
  ◌+◌, ◌-◌, ◌||◌, min, ltb, ℕ, zero, suc, Bool, true, false, Option, none, some, List, [], ◌∷◌,
  length, if◌then◌else◌,
}
use mini_raft.Protocol.{
  Message, append_entries_type, append_entries_response_type, request_vote_type,
  request_vote_response_type, client_request_type, broadcast, Incoming,
}
use mini_raft.StateMachine.{StateMachine}
use mini_raft.Server.State.{Server, RaftState}
use mini_raft.Server.Action.{
  Outcome, ok, err, fault, unfinished, Error, Action, pure, raise, stuck, ◌>>=◌, ◌>>◌, ignore,
  modify_state, self, send,
}
use mini_raft.Server.Roles.{become_candidate, become_leader}
use mini_raft.Server.Apply.{apply_latest_commited_logs, last_index}
use mini_raft.Server.Append.{handle_append_entries}
use mini_raft.Server.Vote.{
  last_term, send_request_vote_rpc_to_peers, handle_request_vote_rpc,
  handle_request_vote_response_rpc,
}
use mini_raft.Server.Client.{handle_client_request}
use mini_raft.Server.Replicate.{handle_append_entries_response}

-- What the server waits for: the channel yields a message (`none`: all senders are gone), the timer
-- of the current loop fires, or it fires while the handler of a message waits at the full channel to
-- the network, which has taken some messages of it; `select!` then drops the handler where it is. The
-- first number is the time.
pub data Event : Type 0 where
  rpc : ℕ → Option Incoming → Event
  timer : ℕ → Event
  cut : ℕ → Incoming → ℕ → Event

unfoldable pub time : Event → ℕ
time (rpc now _) = now
time (timer now) = now
time (cut now _ _) = now

-- How a loop of a role ends: it was left at a time, with events to come, or, `none`, it still waits.
abbrev pub Left : Type 0
Left = Option (ℕ × List Event)

unfoldable pub is_candidate : RaftState → Bool
is_candidate (RaftState.candidate _) = true
is_candidate _ = false

unfoldable pub is_leader : RaftState → Bool
is_leader (RaftState.leader _ _) = true
is_leader _ = false

-- `.unwrap()`
abbrev pub unwrapped : Outcome (Unit {0}) → Outcome (Unit {0})
unwrapped (err e) = fault
unwrapped r = r

-- How a handler ended that may have been dropped at the full channel; an error is ignored otherwise.
unfoldable pub was_cut : Bool → Outcome (Unit {0}) → Outcome Bool
was_cut full (err Error.send_failed) = ok full
was_cut full (err _) = ok false
was_cut full (ok _) = ok false
was_cut full fault = fault
was_cut full unfinished = unfinished

module _ {S : Type 0} where
  abbrev pub with_room : ℕ → Server S → Server S
  with_room room s = record s { to_network = record { sent = s.to_network.sent; room = room } }

  abbrev pub unwrap : Action S (Unit {0}) → Action S (Unit {0})
  unwrap m s = let (r, s') = m s in (unwrapped r, s')

  unfoldable pub send_heartbeat : Action S (Unit {0})
  unfolding last_index last_term
  send_heartbeat = do
    s ← self
    index ← last_index
    unwrap (
        send (record {
          dest = broadcast;
          msg = append_entries_type (record {
            term = s.current_term;
            leader_id = s.id;
            prev_log_index = index;
            prev_log_term = last_term s.log;
            entries = [];
            leader_commit = s.commit_index;
          });
        }))

  unfoldable pub handle_commit_index : Action S (Unit {0})
  handle_commit_index = pure tt

module _ {S : Type 0} ⦃m : StateMachine S⦄ where
  unfoldable pub dispatch : Incoming → Message → Action S (Unit {0})
  unfolding handle_append_entries handle_append_entries_response handle_request_vote_rpc
      handle_request_vote_response_rpc handle_client_request
  dispatch msg (append_entries_type a) = handle_append_entries msg.from (append_entries_type a)
  dispatch msg (append_entries_response_type _) = handle_append_entries_response msg.from msg.msg
  dispatch msg (request_vote_type v) = handle_request_vote_rpc v
  dispatch msg (request_vote_response_type v) = handle_request_vote_response_rpc v
  dispatch msg (client_request_type c) = handle_client_request c
  dispatch msg _ = pure tt

  unfoldable pub recieve_rpc : Option Incoming → Action S (Unit {0})
  unfolding dispatch
  recieve_rpc none = raise Error.channel_closed
  recieve_rpc (some msg) = dispatch msg msg.msg

  -- A message whose handler can send `taken` messages before the channel is full, and whether it was
  -- dropped there. A handler passes a failed send on at once, so that is where it stands then; what it
  -- wrote stays. A handler that needs no more room, or finds the other end gone, has ended.
  unfoldable pub recieve_until : ℕ → Incoming → Action S Bool
  unfolding recieve_rpc
  recieve_until taken msg s =
      let (r, t) = recieve_rpc (some msg) (with_room (min taken s.to_network.room) s) in
      (
        was_cut (ltb taken s.to_network.room) r,
        with_room (t.to_network.room + (s.to_network.room - taken)) t,
      )

  -- One round of the follower's `select!`; all arms leave the loop.
  unfoldable pub follower_event : Event → Action S (Unit {0})
  unfolding recieve_rpc recieve_until
  follower_event (rpc _ msg) = ignore (recieve_rpc msg)
  follower_event (timer _) = modify_state λ t. record t { state = RaftState.candidate 0 }
  follower_event (cut _ msg taken) = do
    dropped_there ← recieve_until taken msg
    if dropped_there
        then modify_state (λ t. record t { state = RaftState.candidate 0 })
        else pure tt

  unfoldable pub follower_wait : List Event → Action S Left
  unfolding follower_event time
  follower_wait [] = pure none
  follower_wait (e ∷ es) = do follower_event e; pure (some (time e, es))

  unfoldable pub follower : List Event → Action S Left
  unfolding apply_latest_commited_logs follower_wait
  follower events = do
    s ← self
    ignore (apply_latest_commited_logs s.commit_index)
    follower_wait events

  -- The candidate asks for votes in every round, and leaves when a message changed its role.
  unfoldable pub candidate_loop : List Event → Action S Left
  unfolding send_request_vote_rpc_to_peers recieve_rpc recieve_until is_candidate
  candidate_loop [] = do send_request_vote_rpc_to_peers; pure none
  candidate_loop (timer now ∷ es) = do send_request_vote_rpc_to_peers; candidate_loop es
  candidate_loop (rpc now msg ∷ es) =
      let rest = candidate_loop es in
      do
        send_request_vote_rpc_to_peers
        ignore (recieve_rpc msg)
        s ← self
        if is_candidate s.state then rest else pure (some (now, es))
  candidate_loop (cut now msg taken ∷ es) =
      let rest = candidate_loop es in
      do
        send_request_vote_rpc_to_peers
        dropped_there ← recieve_until taken msg
        s ← self
        if dropped_there || is_candidate s.state then rest else pure (some (now, es))

  unfoldable pub candidate_as : RaftState → ℕ → List Event → Action S Left
  unfolding become_candidate candidate_loop
  candidate_as (RaftState.candidate _) now events = do become_candidate now; candidate_loop events
  candidate_as _ now events = pure (some (now, events))

  unfoldable pub candidate : ℕ → List Event → Action S Left
  unfolding candidate_as
  candidate now events = do s ← self; candidate_as s.state now events

  -- The leader sends a heartbeat when its timer fires, and leaves when it no longer leads.
  unfoldable pub leader_loop : List Event → Action S Left
  unfolding send_heartbeat handle_commit_index recieve_rpc recieve_until is_leader
  leader_loop [] = do handle_commit_index; pure none
  leader_loop (timer now ∷ es) = do handle_commit_index; send_heartbeat; leader_loop es
  leader_loop (rpc now msg ∷ es) =
      let rest = leader_loop es in
      do
        handle_commit_index
        ignore (recieve_rpc msg)
        s ← self
        if is_leader s.state then rest else pure (some (now, es))
  leader_loop (cut now msg taken ∷ es) =
      let rest = leader_loop es in
      do
        handle_commit_index
        dropped_there ← recieve_until taken msg
        s ← self
        if dropped_there
            then (do send_heartbeat; rest)
            else if is_leader s.state
            then rest
            else pure (some (now, es))

  unfoldable pub leader : List Event → Action S Left
  unfolding apply_latest_commited_logs send_heartbeat become_leader leader_loop
  leader events = do
    s ← self
    ignore (apply_latest_commited_logs s.commit_index)
    send_heartbeat
    become_leader
    leader_loop events

  unfoldable pub role_loop : RaftState → ℕ → List Event → Action S Left
  unfolding follower candidate leader
  role_loop RaftState.follower now events = follower events
  role_loop (RaftState.candidate _) now events = candidate now events
  role_loop (RaftState.leader _ _) now events = leader events

  -- The next round of `run`, unless the loop of the role still waits.
  unfoldable pub next_round : Left → (ℕ → List Event → Action S (Unit {0})) → Action S (Unit {0})
  next_round none again = pure tt
  next_round (some (later, rest)) again = again later rest

  -- `run`: each round leaves the loop of a role, which takes an event at least, so one round more
  -- than there are events is enough fuel.
  unfoldable pub run_rounds : ℕ → ℕ → List Event → Action S (Unit {0})
  unfolding role_loop next_round
  run_rounds zero now events = stuck
  run_rounds (suc fuel) now events = do
    s ← self
    left ← role_loop s.state now events
    next_round left (run_rounds fuel)

  unfoldable pub run : ℕ → List Event → Action S (Unit {0})
  unfolding run_rounds
  run now events = run_rounds (suc (length events)) now events
