-- ===== src/Server/Replicate/Finish.antt =====
-- What a leader does once its commit index has moved (`handle_append_entries_response`, src/server.rs):
-- it applies what is committed.
use mini_raft.Prelude.{
  ℕ, zero, suc, ◌-◌, ◌≤◌, ◌<◌, ℤ, pos, inc_i32, span, ◌≡◌, refl, ap, ◌∙◌, none, some, Option,
  length, get_elem?, take, write, as_usize, i32_size, arith,
}
use mini_raft.Protocol.{LogEntry, Outgoing}
use mini_raft.StateMachine.{StateMachine}
use mini_raft.Server.State.{Server, RaftState, follower, candidate, leader}
use mini_raft.Server.Action.{ok, or_panic, send, send_to}
use mini_raft.Server.Apply.{apply_latest_commited_logs}
use mini_raft.Server.Apply.Replay.{
  upto, replay, IsReliable, committed, apply_latest_commited_logs-replay,
}
use mini_raft.Server.Steps.Rules.{after_ok, ignore_ok, given_kept}
use mini_raft.Server.Replicate.{
  client_reply, send_reply, answer_client, acknowledge_as, apply_rounds, finish_commit,
}
use mini_raft.Server.Replicate.Quorum.{inc_upto}

-- The indices and the store of a server.
abbrev pub HasApplied : {S : Type 0} → ℤ → S → Server S → Type 0
HasApplied z store t = (t.commit_index ≡ z) × (t.last_applied ≡ z) × (t.state_machine ≡ store)

module _ {S : Type 0} (z : ℤ) (store : S) where
  send_to-HasApplied :
      (room : ℕ) (o : Outgoing) (t : Server S)
      → HasApplied z store t
      → HasApplied z store (send_to room o t).1
  unfolding send_to
  send_to-HasApplied zero o t h = h
  send_to-HasApplied (suc r) o t h = h

  send_reply-HasApplied :
      (o : Option Outgoing) (t : Server S)
      → HasApplied z store t
      → HasApplied z store (send_reply o t).1
  unfolding send_reply send
  send_reply-HasApplied none t h = h
  send_reply-HasApplied (some o) t h = send_to-HasApplied t.to_network.room o t h

  answer_client-HasApplied :
      (o : Option LogEntry) (t : Server S)
      → HasApplied z store t
      → HasApplied z store (answer_client o t).1
  unfolding answer_client
  answer_client-HasApplied none t h = h
  answer_client-HasApplied (some e) t h = send_reply-HasApplied (client_reply e e.command) t h

  -- The answer to the client, or the panic before it, leaves them.
  pub acknowledge_as-HasApplied :
      (role : RaftState) (t : Server S)
      → HasApplied z store t
      → HasApplied z store (acknowledge_as role t).1
  unfolding acknowledge_as
  acknowledge_as-HasApplied follower t h = h
  acknowledge_as-HasApplied (candidate _) t h = h
  acknowledge_as-HasApplied (leader m next) t h =
      given_kept (HasApplied z store) (write m t.id t.commit_index) _ t h
        (λ m₁. answer_client-HasApplied (get_elem? t.log (as_usize t.commit_index)) _ h)

-- A server with the first d entries committed and applied to the store `start`.
abbrev pub applied_to : {S : Type 0} → ⦃m : StateMachine S⦄ → S → ℕ → Server S → Server S
applied_to ⦃m⦄ start d t = record t {
  inner = record t.inner {
    commit_index = upto d;
    last_applied = upto d;
    state_machine = replay m (take d t.log) start;
  };
}

committed-upto : (d len : ℕ) → d ≤ len → committed (upto d) len d ≡ d
committed-upto zero len h = omega arith
committed-upto (suc d) len h = omega arith

module _ {S : Type 0} ⦃m : StateMachine S⦄ (reliable : IsReliable m) (start : S) where
  apply_all-replay :
      (k d : ℕ) (t : Server S)
      → t.last_applied ≡ upto k
      → t.commit_index ≡ upto d
      → k ≤ d
      → d ≤ length t.log
      → length t.log < i32_size
      → t.state_machine ≡ replay m (take k t.log) start
      → apply_latest_commited_logs (upto d) t ≡ (ok tt, applied_to start d t)
  apply_all-replay k d t a b kd dl small store =
      apply_latest_commited_logs-replay reliable (upto d) k d t start a b kd dl small store
      ∙ ap (λ c. (ok tt, applied_to start c t)) (committed-upto d (length t.log) dl)

  -- The first round applies what is committed, and the others nothing more.
  apply_rounds-replay :
      (n k d : ℕ) (t : Server S)
      → t.last_applied ≡ upto k
      → t.commit_index ≡ upto d
      → k ≤ d
      → d ≤ length t.log
      → length t.log < i32_size
      → t.state_machine ≡ replay m (take k t.log) start
      → apply_rounds (suc n) (upto d) t ≡ (ok tt, applied_to start d t)
  unfolding apply_rounds
  apply_rounds-replay zero k d t a b kd dl small store = after_ok _ (
      ignore_ok (apply_latest_commited_logs (upto d)) t (applied_to start d t)
        (apply_all-replay k d t a b kd dl small store))
  apply_rounds-replay (suc n) k d t a b kd dl small store =
      after_ok _ (
        ignore_ok (apply_latest_commited_logs (upto d)) t (applied_to start d t)
          (apply_all-replay k d t a b kd dl small store))
      ∙ apply_rounds-replay n d d (applied_to start d t) refl refl (omega arith) dl small refl

  finish_rounds :
      (k j : ℕ) (t : Server S)
      → t.last_applied ≡ upto k
      → t.commit_index ≡ pos j
      → k ≤ j
      → j < length t.log
      → length t.log < i32_size
      → t.state_machine ≡ replay m (take k t.log) start
      → apply_rounds (span (pos k) t.commit_index) t.commit_index t
        ≡ (ok tt, applied_to start (suc j) t)
  finish_rounds k j t a b kj jl small store =
      ap (λ z. apply_rounds (span (pos k) z) z t) b
      ∙ ap (λ n. apply_rounds n (pos j) t) {x = span (pos k) (pos j)} {y = suc (j - k)}
          (omega arith)
      ∙ apply_rounds-replay (j - k) k (suc j) t a b (omega arith) (omega arith) small store

  pub finish_commit_applies :
      (k j : ℕ) (t : Server S)
      → t.last_applied ≡ upto k
      → t.commit_index ≡ pos j
      → k ≤ j
      → j < length t.log
      → length t.log < i32_size
      → t.state_machine ≡ replay m (take k t.log) start
      → finish_commit t ≡ acknowledge_as t.state (applied_to start (suc j) t)
  unfolding finish_commit
  finish_commit_applies k j t a b kj jl small store =
      after_ok _ (ap (λ o. or_panic o t) (ap inc_i32 a ∙ inc_upto k (omega arith)))
      ∙ after_ok _ (finish_rounds k j t a b kj jl small store)
