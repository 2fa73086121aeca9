-- ===== src/Server/Steps/Ends.antt =====
-- That each round of `run` (src/server.rs) takes an event, so that it comes to an end.
use mini_raft.Prelude.{
  ◌||◌, ℕ, zero, suc, ◌<◌, ◌≡◌, ◌≢◌, refl, ap, sym, subst, ◌∙◌, ◌⊎◌, inl, inr, Bool, true, false,
  none, some, List, [], ◌∷◌, length, if◌then◌else◌, arith,
}
use mini_raft.Protocol.{Message}
use mini_raft.StateMachine.{StateMachine}
use mini_raft.Server.State.{Server, RaftState}
use mini_raft.Server.Action.{Outcome, ok, err, fault, unfinished, Action, resume, ignore}
use mini_raft.Server.Roles.{become_candidate, become_leader}
use mini_raft.Server.Apply.{apply_latest_commited_logs}
use mini_raft.Server.Vote.{send_request_vote_rpc_to_peers}
use mini_raft.Server.Loop.{
  recieve_rpc, Event, rpc, timer, cut, recieve_until, Left, is_candidate, is_leader, send_heartbeat,
  handle_commit_index, follower_event, follower_wait, follower, candidate_loop, candidate_as,
  candidate, leader_loop, leader, role_loop, next_round, run_rounds, run,
}
use mini_raft.Server.Steps.{Steps, here}
use mini_raft.Server.Steps.Rules.{Runs, after, done}
use mini_raft.Server.Steps.Loops.{AllHeard, role_loop-Runs}

-- A list that is left of another when one event at least is taken from it.
abbrev IsTail : List Event → List Event → Type 0
IsTail rest [] = ⊥
IsTail rest (e ∷ es) = (es ≡ rest) ⊎ IsTail rest es

IsTail-length : (rest es : List Event) → IsTail rest es → length rest < length es
IsTail-length rest [] h = absurd h
IsTail-length rest (e ∷ es) (inl q) = omega (arith, ap length q)
IsTail-length rest (e ∷ es) (inr h) = omega (arith, IsTail-length rest es h)

IsTail-heard :
    (Heard : Message → Type 0) (rest es : List Event)
    → IsTail rest es
    → AllHeard Heard es
    → AllHeard Heard rest
IsTail-heard Heard rest [] h g = absurd h
IsTail-heard Heard rest (timer _ ∷ es) (inl q) g = subst (AllHeard Heard) q g
IsTail-heard Heard rest (rpc _ _ ∷ es) (inl q) g = subst (AllHeard Heard) q g.1
IsTail-heard Heard rest (cut _ _ _ ∷ es) (inl q) g = subst (AllHeard Heard) q g.1
IsTail-heard Heard rest (cut _ _ _ ∷ es) (inr h) g = IsTail-heard Heard rest es h g.1
IsTail-heard Heard rest (timer _ ∷ es) (inr h) g = IsTail-heard Heard rest es h g
IsTail-heard Heard rest (rpc _ _ ∷ es) (inr h) g = IsTail-heard Heard rest es h g.1

-- A loop that is left has taken an event.
abbrev Takes : List Event → Outcome Left → Type 0
Takes es (ok (some (_, rest))) = IsTail rest es
Takes es _ = Unit

Takes-more : (e : Event) (es : List Event) (r : Outcome Left) → Takes es r → Takes (e ∷ es) r
Takes-more e es (ok (some _)) h = inr h
Takes-more e es (ok none) h = tt
Takes-more e es (err _) h = tt
Takes-more e es fault h = tt
Takes-more e es unfinished h = tt

module _ {S : Type 0} where
  resume-Takes :
      {A : Type 0} (es : List Event) (r : Outcome A) (f : A → Action S Left) (t : Server S)
      → ((a : A) → Takes es (f a t).0)
      → Takes es (resume r f t).0
  resume-Takes es (ok a) f t k = k a
  resume-Takes es (err e) f t k = tt
  resume-Takes es fault f t k = tt
  resume-Takes es unfinished f t k = tt

  after-Takes :
      {A : Type 0} (es : List Event) (p : Outcome A × Server S) (f : A → Action S Left)
      → ((a : A) → Takes es (f a p.1).0)
      → Takes es (resume p.0 f p.1).0
  after-Takes es p f k = resume-Takes es p.0 f p.1 k

  branch-Takes :
      (es : List Event) (b : Bool) (m k : Action S Left) (t : Server S)
      → Takes es (m t).0
      → Takes es (k t).0
      → Takes es ((if b then m else k) t).0
  branch-Takes es true m k t h g = h
  branch-Takes es false m k t h g = g

module _ {S : Type 0} ⦃sm : StateMachine S⦄ where
  follower_wait-Takes : (es : List Event) (t : Server S) → Takes es (follower_wait es t).0
  unfolding follower_wait
  follower_wait-Takes [] t = tt
  follower_wait-Takes (e ∷ es) t = after-Takes (e ∷ es) (follower_event e t) _ (λ _. inl refl)

  follower-Takes : (es : List Event) (t : Server S) → Takes es (follower es t).0
  unfolding follower
  follower-Takes es t =
      after-Takes es (ignore (apply_latest_commited_logs t.commit_index) t) _
        (λ _. follower_wait-Takes es _)

  candidate_loop-Takes : (es : List Event) (t : Server S) → Takes es (candidate_loop es t).0
  unfolding candidate_loop
  candidate_loop-Takes [] t = after-Takes [] (send_request_vote_rpc_to_peers t) _ (λ _. tt)
  candidate_loop-Takes (timer now ∷ es) t =
      after-Takes (timer now ∷ es) (send_request_vote_rpc_to_peers t) _
        (λ _. Takes-more (timer now) es _ (candidate_loop-Takes es _))
  candidate_loop-Takes (rpc now i ∷ es) t =
      let asked = send_request_vote_rpc_to_peers t in
      let heard = ignore (recieve_rpc i) asked.1 in
      after-Takes (rpc now i ∷ es) asked _ (λ _. after-Takes (rpc now i ∷ es) heard _ (λ _.
        branch-Takes (rpc now i ∷ es) (is_candidate heard.1.state) _ _ heard.1
          (Takes-more (rpc now i) es _ (candidate_loop-Takes es heard.1)) (inl refl)))
  candidate_loop-Takes (cut now i taken ∷ es) t =
      let asked = send_request_vote_rpc_to_peers t in
      let heard = recieve_until taken i asked.1 in
      after-Takes (cut now i taken ∷ es) asked _ (λ _.
        after-Takes (cut now i taken ∷ es) heard _ (λ b.
          branch-Takes (cut now i taken ∷ es) (b || is_candidate heard.1.state) _ _ heard.1
            (Takes-more (cut now i taken) es _ (candidate_loop-Takes es heard.1)) (inl refl)))

  leader_loop-Takes : (es : List Event) (t : Server S) → Takes es (leader_loop es t).0
  unfolding leader_loop handle_commit_index
  leader_loop-Takes [] t = tt
  leader_loop-Takes (timer now ∷ es) t =
      after-Takes (timer now ∷ es) (send_heartbeat t) _
        (λ _. Takes-more (timer now) es _ (leader_loop-Takes es _))
  leader_loop-Takes (rpc now i ∷ es) t =
      let heard = ignore (recieve_rpc i) t in
      after-Takes (rpc now i ∷ es) heard _ (λ _.
        branch-Takes (rpc now i ∷ es) (is_leader heard.1.state) _ _ heard.1
          (Takes-more (rpc now i) es _ (leader_loop-Takes es heard.1)) (inl refl))
  leader_loop-Takes (cut now i taken ∷ es) t =
      let heard = recieve_until taken i t in
      after-Takes (cut now i taken ∷ es) heard _ (λ b.
        branch-Takes (cut now i taken ∷ es) b _ _ heard.1
          (after-Takes (cut now i taken ∷ es) (send_heartbeat heard.1) _
            (λ _. Takes-more (cut now i taken) es _ (leader_loop-Takes es _)))
          (branch-Takes (cut now i taken ∷ es) (is_leader heard.1.state) _ _ heard.1
            (Takes-more (cut now i taken) es _ (leader_loop-Takes es heard.1)) (inl refl)))

  leader-Takes : (es : List Event) (t : Server S) → Takes es (leader es t).0
  unfolding leader
  leader-Takes es t =
      let caught = ignore (apply_latest_commited_logs t.commit_index) t in
      after-Takes es caught _ (λ _. after-Takes es (send_heartbeat caught.1) _ (λ _.
        after-Takes es (become_leader (send_heartbeat caught.1).1) (λ _. leader_loop es)
          (λ _. leader_loop-Takes es _)))

  candidate_as-Takes :
      (votes now : ℕ) (es : List Event) (t : Server S)
      → Takes es (candidate_as (RaftState.candidate votes) now es t).0
  unfolding candidate_as
  candidate_as-Takes votes now es t =
      after-Takes es (become_candidate now t) _ (λ _. candidate_loop-Takes es _)

  role_loop-Takes :
      (role : RaftState) (now : ℕ) (es : List Event) (t : Server S)
      → t.state ≡ role
      → Takes es (role_loop role now es t).0
  unfolding role_loop candidate
  role_loop-Takes RaftState.follower now es t e = follower-Takes es t
  role_loop-Takes (RaftState.candidate v) now es t e =
      subst (λ r. Takes es (candidate_as r now es t).0) (sym e) (candidate_as-Takes v now es t)
  role_loop-Takes (RaftState.leader _ _) now es t e = leader-Takes es t

module _ {S : Type 0} ⦃sm : StateMachine S⦄ {Heard : Message → Type 0} {s : Server S} where
  next_round-Runs :
      (l : Left) (again : ℕ → List Event → Action S (Unit {0})) (t : Server S)
      → Steps Heard s t
      → ((now : ℕ) (rest : List Event) → l ≡ some (now, rest) → Runs Heard s (again now rest t))
      → Runs Heard s (next_round l again t)
  unfolding next_round
  next_round-Runs none again t h k = done h
  next_round-Runs (some (now, rest)) again t h k = k now rest refl

  -- One round more than there are events is enough fuel.
  run_rounds-Runs :
      (fuel now : ℕ) (es : List Event) (t : Server S)
      → length es < fuel
      → Steps Heard s t
      → AllHeard Heard es
      → Runs Heard s (run_rounds fuel now es t)
  unfolding run_rounds
  run_rounds-Runs zero now es t lt h g = absurd (omega arith)
  run_rounds-Runs (suc fuel) now es t lt h g =
      let round = role_loop t.state now es t in
      after _ (role_loop-Runs t.state now es t h g) (λ l e r.
        next_round-Runs l (run_rounds fuel) round.1 r (λ later rest q.
          let tail = subst (Takes es) (e ∙ ap ok q) (role_loop-Takes t.state now es t refl) in
          run_rounds-Runs fuel later rest round.1 (omega (arith, IsTail-length rest es tail)) r
            (IsTail-heard Heard rest es tail g)))

  run-Runs :
      (now : ℕ) (es : List Event) (t : Server S)
      → Steps Heard s t
      → AllHeard Heard es
      → Runs Heard s (run now es t)
  unfolding run
  run-Runs now es t h g = run_rounds-Runs (suc (length es)) now es t (omega arith) h g

pub heard_anything : (es : List Event) → AllHeard (λ _. Unit) es
heard_anything [] = tt
heard_anything (timer _ ∷ es) = heard_anything es
heard_anything (cut _ _ _ ∷ es) = (tt, heard_anything es)
heard_anything (rpc _ none ∷ es) = (tt, heard_anything es)
heard_anything (rpc _ (some _) ∷ es) = (tt, heard_anything es)

module _ {S : Type 0} ⦃sm : StateMachine S⦄ where
  -- A run of a node that hears no other messages than some is a sequence of writes.
  pub run-Steps :
      (Heard : Message → Type 0) (now : ℕ) (es : List Event) (s : Server S)
      → AllHeard Heard es
      → Steps Heard s (run now es s).1
  run-Steps Heard now es s g = Runs.steps (run-Runs now es s here g)

  -- A run over any list of events comes to an end: with a result, an error or a panic, or because
  -- the events are used up and the loop of a role waits for more. No loop of the server runs on
  -- without taking an event, the loop that applies the committed entries included.
  pub run_ends : (now : ℕ) (es : List Event) (s : Server S) → (run now es s).0 ≢ unfinished
  run_ends now es s = Runs.ends (run-Runs {Heard = λ _. Unit} now es s here (heard_anything es))
