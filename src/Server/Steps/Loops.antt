-- ===== src/Server/Steps/Loops.antt =====
-- The writes of the loops of src/server.rs, and that `run` comes to an end.
use mini_raft.Prelude.{
  ◌++◌, some, none, Bool, ◌||◌, ℕ, add_u32, dec_i32, as_i32, ◌≡◌, refl, sym, subst, drop-length,
  Option, none, some, List, [], ◌∷◌, length, if◌then◌else◌, arith,
}
use mini_raft.Protocol.{
  Message, append_entries_type, append_entries_response_type, request_vote_type,
  request_vote_response_type, client_request_type, client_response_type, hello_type,
  hello_client_type, Incoming,
}
use mini_raft.StateMachine.{StateMachine}
use mini_raft.Server.State.{Server, RaftState}
use mini_raft.Server.Action.{Error, Outcome, ok, err, fault, unfinished, pure}
use mini_raft.Server.Roles.{become_candidate}
use mini_raft.Server.Apply.{last_index}
use mini_raft.Server.Loop.{
  Event, rpc, timer, cut, recieve_until, was_cut, with_room, is_candidate, is_leader, unwrapped,
  send_heartbeat, handle_commit_index, dispatch, recieve_rpc, follower_event, follower_wait,
  follower, candidate_loop, candidate_as, candidate, leader_loop, leader, role_loop,
}
use mini_raft.Server.Steps.{Steps, then_write, limited, stood, counted}
use mini_raft.Server.Steps.Rules.{
  Runs, after, given, branch, done, failed, panicked, ignored, sends,
}
use mini_raft.Server.Steps.Apply.{apply_latest-Runs}
use mini_raft.Server.Steps.Append.{append_entries-Runs}
use mini_raft.Server.Steps.Vote.{
  send_request_vote-Runs, request_vote-Runs, vote_response-Runs, become_leader-Runs,
}
use mini_raft.Server.Steps.Client.{client_request-Runs}
use mini_raft.Server.Steps.Replicate.{append_response-Runs}

-- The messages that come are ones that may be received.
abbrev pub HeardIn : (Message → Type 0) → Option Incoming → Type 0
HeardIn Heard none = Unit
HeardIn Heard (some i) = Heard i.msg

abbrev pub AllHeard : (Message → Type 0) → List Event → Type 0
AllHeard Heard [] = Unit
AllHeard Heard (timer _ ∷ es) = AllHeard Heard es
AllHeard Heard (rpc _ i ∷ es) = HeardIn Heard i × AllHeard Heard es
AllHeard Heard (cut _ i _ ∷ es) = Heard i.msg × AllHeard Heard es

pub AllHeard-mono :
    (P Q : Message → Type 0)
    → ((msg : Message) → P msg → Q msg)
    → (events : List Event) → AllHeard P events
    → AllHeard Q events
AllHeard-mono P Q f [] h = tt
AllHeard-mono P Q f (timer _ ∷ es) h = AllHeard-mono P Q f es h
AllHeard-mono P Q f (rpc _ none ∷ es) h = (h.0, AllHeard-mono P Q f es h.1)
AllHeard-mono P Q f (rpc _ (some x) ∷ es) h = (f x.msg h.0, AllHeard-mono P Q f es h.1)
AllHeard-mono P Q f (cut _ x _ ∷ es) h = (f x.msg h.0, AllHeard-mono P Q f es h.1)

pub AllHeard-append :
    (P : Message → Type 0) (es fs : List Event)
    → AllHeard P es
    → AllHeard P fs
    → AllHeard P (es ++ fs)
AllHeard-append P [] fs h k = k
AllHeard-append P (timer _ ∷ es) fs h k = AllHeard-append P es fs h k
AllHeard-append P (rpc _ _ ∷ es) fs h k = (h.0, AllHeard-append P es fs h.1 k)
AllHeard-append P (cut _ _ _ ∷ es) fs h k = (h.0, AllHeard-append P es fs h.1 k)

module _ {S : Type 0} {Heard : Message → Type 0} {s : Server S} where
  unwrapped-Runs :
      (p : Outcome (Unit {0}) × Server S) → Runs Heard s p → Runs Heard s (unwrapped p.0, p.1)
  unwrapped-Runs (ok a, t) h = h
  unwrapped-Runs (err e, t) h = panicked h.steps
  unwrapped-Runs (fault, t) h = h
  unwrapped-Runs (unfinished, t) h = h

  send_heartbeat-Runs : (t : Server S) → Steps Heard s t → Runs Heard s (send_heartbeat t)
  unfolding send_heartbeat last_index
  send_heartbeat-Runs t h =
      given (dec_i32 (as_i32 (length t.log))) _ h
        (λ last _. unwrapped-Runs _ (sends _ t h (refl, length t.log, sym (drop-length t.log))))

  become_candidate-Runs :
      (now : ℕ) (t : Server S) → Steps Heard s t → Runs Heard s (become_candidate now t)
  unfolding become_candidate
  become_candidate-Runs now t h =
      given (add_u32 t.current_term 1) _ h (λ term e. done (then_write h (stood now term e)))

module _ {S : Type 0} ⦃m : StateMachine S⦄ {Heard : Message → Type 0} {s : Server S} where
  dispatch-Runs :
      (i : Incoming) (msg : Message) (t : Server S)
      → Steps Heard s t
      → i.msg ≡ msg
      → Heard i.msg
      → Runs Heard s (dispatch i msg t)
  unfolding dispatch
  dispatch-Runs i (append_entries_type a) t h e g =
      append_entries-Runs i.from _ t h (subst Heard e g)
  dispatch-Runs i (append_entries_response_type a) t h e g = append_response-Runs i.from i.msg t h g
  dispatch-Runs i (request_vote_type v) t h e g = request_vote-Runs v t h
  dispatch-Runs i (request_vote_response_type v) t h e g =
      vote_response-Runs v t h (subst Heard e g)
  dispatch-Runs i (client_request_type c) t h e g = client_request-Runs c t h (subst Heard e g)
  dispatch-Runs i (client_response_type _) t h e g = done h
  dispatch-Runs i (hello_type _) t h e g = done h
  dispatch-Runs i (hello_client_type _) t h e g = done h

  pub recieve_rpc-Runs :
      (i : Option Incoming) (t : Server S)
      → Steps Heard s t
      → HeardIn Heard i
      → Runs Heard s (recieve_rpc i t)
  unfolding recieve_rpc
  recieve_rpc-Runs none t h g = failed h
  recieve_rpc-Runs (some i) t h g = dispatch-Runs i i.msg t h refl g

  -- A handler with less room to send.
  was_cut-Runs :
      (full : Bool) (room : ℕ) (p : Outcome (Unit {0}) × Server S)
      → Runs Heard s p
      → Runs Heard s (was_cut full p.0, with_room room p.1)
  unfolding was_cut
  was_cut-Runs full room (ok _, t) h = done (then_write h.steps (limited room))
  was_cut-Runs full room (err Error.send_failed, t) h = done (then_write h.steps (limited room))
  was_cut-Runs full room (err Error.expected_append_entries, t) h =
      done (then_write h.steps (limited room))
  was_cut-Runs full room (err Error.channel_closed, t) h = done (then_write h.steps (limited room))
  was_cut-Runs full room (err Error.apply_failed, t) h = done (then_write h.steps (limited room))
  was_cut-Runs full room (fault, t) h = panicked (then_write h.steps (limited room))
  was_cut-Runs full room (unfinished, t) h = absurd (h.ends refl)

  recieve_until-Runs :
      (taken : ℕ) (i : Incoming) (t : Server S)
      → Steps Heard s t
      → Heard i.msg
      → Runs Heard s (recieve_until taken i t)
  unfolding recieve_until
  recieve_until-Runs taken i t h g =
      was_cut-Runs _ _ _ (recieve_rpc-Runs (some i) _ (then_write h (limited _)) g)

  follower_event-Runs :
      (e : Event) (es : List Event) (t : Server S)
      → Steps Heard s t
      → AllHeard Heard (e ∷ es)
      → Runs Heard s (follower_event e t)
  unfolding follower_event
  follower_event-Runs (rpc _ i) es t h g = ignored (recieve_rpc-Runs i t h g.0)
  follower_event-Runs (timer _) es t h g = done (then_write h (counted 0 (omega arith)))
  follower_event-Runs (cut _ i taken) es t h g =
      after _ (recieve_until-Runs taken i t h g.0)
        (λ b _ r. branch b _ _ _ (λ _. done (then_write r (counted 0 (omega arith)))) (λ _. done r))

  follower_wait-Runs :
      (es : List Event) (t : Server S)
      → Steps Heard s t
      → AllHeard Heard es
      → Runs Heard s (follower_wait es t)
  unfolding follower_wait
  follower_wait-Runs [] t h g = done h
  follower_wait-Runs (e ∷ es) t h g = after _ (follower_event-Runs e es t h g) (λ _ _ r. done r)

  follower-Runs :
      (es : List Event) (t : Server S)
      → Steps Heard s t
      → AllHeard Heard es
      → Runs Heard s (follower es t)
  unfolding follower
  follower-Runs es t h g =
      after _ (ignored (apply_latest-Runs t.commit_index t h))
        (λ _ _ r. follower_wait-Runs es _ r g)

  candidate_again-Runs :
      (now : ℕ) (es : List Event) (t : Server S)
      → Steps Heard s t
      → Runs Heard s (candidate_loop es t)
      → Runs Heard s ((if is_candidate t.state then candidate_loop es else pure (some (now, es))) t)
  candidate_again-Runs now es t h k = branch (is_candidate t.state) _ _ t (λ _. k) (λ _. done h)

  leader_again-Runs :
      (now : ℕ) (es : List Event) (t : Server S)
      → Steps Heard s t
      → Runs Heard s (leader_loop es t)
      → Runs Heard s ((if is_leader t.state then leader_loop es else pure (some (now, es))) t)
  leader_again-Runs now es t h k = branch (is_leader t.state) _ _ t (λ _. k) (λ _. done h)

  candidate_loop-Runs :
      (es : List Event) (t : Server S)
      → Steps Heard s t
      → AllHeard Heard es
      → Runs Heard s (candidate_loop es t)
  unfolding candidate_loop
  candidate_loop-Runs [] t h g = after _ (send_request_vote-Runs t h) (λ _ _ r. done r)
  candidate_loop-Runs (timer now ∷ es) t h g =
      after _ (send_request_vote-Runs t h) (λ _ _ r. candidate_loop-Runs es _ r g)
  candidate_loop-Runs (rpc now i ∷ es) t h g = after _ (send_request_vote-Runs t h) (λ _ _ r.
      after _ (ignored (recieve_rpc-Runs i _ r g.0))
        (λ _ _ q. candidate_again-Runs now es _ q (candidate_loop-Runs es _ q g.1)))
  candidate_loop-Runs (cut now i taken ∷ es) t h g = after _ (send_request_vote-Runs t h) (λ _ _ r.
      after _ (recieve_until-Runs taken i _ r g.0) (λ b _ q.
        branch (b || is_candidate _) _ _ _ (λ _. candidate_loop-Runs es _ q g.1) (λ _. done q)))

  candidate_as-Runs :
      (role : RaftState) (now : ℕ) (es : List Event) (t : Server S)
      → Steps Heard s t
      → AllHeard Heard es
      → Runs Heard s (candidate_as role now es t)
  unfolding candidate_as
  candidate_as-Runs (RaftState.candidate _) now es t h g =
      after _ (become_candidate-Runs now t h) (λ _ _ r. candidate_loop-Runs es _ r g)
  candidate_as-Runs RaftState.follower now es t h g = done h
  candidate_as-Runs (RaftState.leader _ _) now es t h g = done h

  candidate-Runs :
      (now : ℕ) (es : List Event) (t : Server S)
      → Steps Heard s t
      → AllHeard Heard es
      → Runs Heard s (candidate now es t)
  unfolding candidate
  candidate-Runs now es t h g = candidate_as-Runs t.state now es t h g

  leader_loop-Runs :
      (es : List Event) (t : Server S)
      → Steps Heard s t
      → AllHeard Heard es
      → Runs Heard s (leader_loop es t)
  unfolding leader_loop handle_commit_index
  leader_loop-Runs [] t h g = done h
  leader_loop-Runs (timer now ∷ es) t h g =
      after _ (send_heartbeat-Runs t h) (λ _ _ r. leader_loop-Runs es _ r g)
  leader_loop-Runs (rpc now i ∷ es) t h g =
      after _ (ignored (recieve_rpc-Runs i t h g.0))
        (λ _ _ q. leader_again-Runs now es _ q (leader_loop-Runs es _ q g.1))
  leader_loop-Runs (cut now i taken ∷ es) t h g =
      after _ (recieve_until-Runs taken i t h g.0) (λ b _ q.
        branch b _ _ _
          (λ _. after _ (send_heartbeat-Runs _ q) (λ _ _ r. leader_loop-Runs es _ r g.1))
          (λ _. leader_again-Runs now es _ q (leader_loop-Runs es _ q g.1)))

  leader-Runs :
      (es : List Event) (t : Server S)
      → Steps Heard s t
      → AllHeard Heard es
      → Runs Heard s (leader es t)
  unfolding leader
  leader-Runs es t h g = after _ (ignored (apply_latest-Runs t.commit_index t h)) (λ _ _ r.
      after _ (send_heartbeat-Runs _ r) (λ _ _ q.
        after (λ _. leader_loop es) (become_leader-Runs _ q) (λ _ _ u. leader_loop-Runs es _ u g)))

  pub role_loop-Runs :
      (role : RaftState) (now : ℕ) (es : List Event) (t : Server S)
      → Steps Heard s t
      → AllHeard Heard es
      → Runs Heard s (role_loop role now es t)
  unfolding role_loop
  role_loop-Runs RaftState.follower now es t h g = follower-Runs es t h g
  role_loop-Runs (RaftState.candidate _) now es t h g = candidate-Runs now es t h g
  role_loop-Runs (RaftState.leader _ _) now es t h g = leader-Runs es t h g
