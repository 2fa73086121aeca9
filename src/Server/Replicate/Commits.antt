-- ===== src/Server/Replicate/Commits.antt =====
-- How a command is committed at the leader (`handle_append_entries_response`, src/server.rs): from the
-- reply that makes a majority to the store.
use mini_raft.Prelude.{
  ℕ, suc, ◌+◌, ◌-◌, ◌≤◌, ◌<◌, ℤ, pos, ◌≡◌, refl, sym, subst, ◌∙◌, inl, inr, true, some, List,
  length, get_elem?, take, written, dec_lt, i32_size, arith, if◌then◌else◌,
}
use mini_raft.Protocol.{NodeId, AppendEntriesResponse, append_entries_response_type, peer}
use mini_raft.StateMachine.{StateMachine}
use mini_raft.Server.State.{Server, leader}
use mini_raft.Server.Action.{Outcome, ◌>>=◌, pure}
use mini_raft.Server.Apply.Replay.{upto, replay, IsReliable}
use mini_raft.Server.Steps.Rules.{after_ok}
use mini_raft.Server.Replicate.{
  acknowledge_as, finish_commit, update_commit, handle_append_entries_response,
}
use mini_raft.Server.Replicate.Quorum.{IsCommittable, with_commit, Scanned, update_commit-Scanned}
use mini_raft.Server.Replicate.Finish.{
  HasApplied, acknowledge_as-HasApplied, applied_to, finish_commit_applies,
}
use mini_raft.Server.Replicate.Success.{caught_up, handle_append_entries_response_taken}

module _ {S : Type 0} ⦃m : StateMachine S⦄ (reliable : IsReliable m) (start : S) where
  -- The reply that makes a majority: what it commits is applied, and what is left is the answer.
  committed_by :
      (m₁ : List ℤ) (a c q : ℕ) (u : Server S)
      → 2 ≤ u.config.total_nodes
      → u.last_applied ≡ upto a
      → u.commit_index ≡ upto c
      → a ≤ c
      → c ≤ length u.log
      → length u.log < i32_size
      → u.state_machine ≡ replay m (take a u.log) start
      → c ≤ q
      → IsCommittable u m₁ q
      → q < length u.log
      → Scanned m₁ u c (length u.log - c) (update_commit m₁ u)
      → (j : ℕ) × (c ≤ j)
        × (j ≤ q)
        × IsCommittable u m₁ j
        × ((update_commit m₁ >>= λ updated. if updated then finish_commit else pure tt) u
            ≡ acknowledge_as u.state (applied_to start (suc j) u))
  committed_by m₁ a c q u nodes la ci ac cl small store cq can inside (inr (none_there, e)) =
      absurd (none_there q cq (omega arith) can)
  committed_by m₁ a c q u nodes la ci ac cl small store cq can inside
        (inl (j, cj, jl, here, first, e)) =
      (
        j,
        cj,
        elim (dec_lt q j) [ yes later ↦ absurd (first q cq later can) | no near ↦ omega arith ],
        here,
        after_ok (λ updated. if updated then finish_commit else pure tt) e
            ∙ finish_commit_applies reliable start a j (with_commit (pos j) u) la refl (omega arith)
                (omega arith) small store,
      )

  -- Such a reply ends in the answer to the client, from the state with all of that applied.
  pub handle_append_entries_response_confirms :
      (match_index : List ℤ) (next : List ℕ) (i : NodeId) (k a c q : ℕ)
      (msg : AppendEntriesResponse) (s : Server S)
      → s.state ≡ leader match_index next
      → msg.term ≤ s.current_term
      → msg.success ≡ true
      → get_elem? s.last_sent_index i ≡ some (pos k)
      → k < i32_size
      → i < length match_index
      → i < length next
      → 2 ≤ s.config.total_nodes
      → s.last_applied ≡ upto a
      → s.commit_index ≡ upto c
      → a ≤ c
      → c ≤ length s.log
      → length s.log < i32_size
      → s.state_machine ≡ replay m (take a s.log) start
      → c ≤ q
      → q < length s.log
      → IsCommittable s (written i (pos k) match_index) q
      → (j : ℕ) × (c ≤ j)
        × (j ≤ q)
        × IsCommittable s (written i (pos k) match_index) j
        × (handle_append_entries_response (peer i) (append_entries_response_type msg) s
            ≡ acknowledge_as
                (leader (written i (pos k) match_index) (written i (k + 1) next))
                (applied_to start (suc j) (caught_up match_index next i k s)))
  handle_append_entries_response_confirms match_index next i k a c q msg s role term taken sent
        small_k im il nodes la ci ac cl small store cq inside can =
      let m₁ = written i (pos k) match_index in
      let u = caught_up match_index next i k s in
      let can_u : IsCommittable u m₁ q = record {
        entry = can.entry;
        found = can.found;
        current = can.current;
        majority = can.majority;
      } in
      let (j, cj, jq, here, e) =
        committed_by m₁ a c q u nodes la ci ac cl small store cq can_u inside
          (update_commit-Scanned m₁ u nodes c ci cl (omega arith) small) in
      (
        j,
        cj,
        jq,
        record {
          entry = here.entry;
          found = here.found;
          current = here.current;
          majority = here.majority;
        },
        handle_append_entries_response_taken match_index next i k msg s role term taken sent small_k
              im il
            ∙ e,
      )

  -- What is committed then is applied, whether the client gets its answer or not.
  pub handle_append_entries_response_commits :
      (match_index : List ℤ) (next : List ℕ) (i : NodeId) (k a c q : ℕ)
      (msg : AppendEntriesResponse) (s : Server S)
      → s.state ≡ leader match_index next
      → msg.term ≤ s.current_term
      → msg.success ≡ true
      → get_elem? s.last_sent_index i ≡ some (pos k)
      → k < i32_size
      → i < length match_index
      → i < length next
      → 2 ≤ s.config.total_nodes
      → s.last_applied ≡ upto a
      → s.commit_index ≡ upto c
      → a ≤ c
      → c ≤ length s.log
      → length s.log < i32_size
      → s.state_machine ≡ replay m (take a s.log) start
      → c ≤ q
      → q < length s.log
      → IsCommittable s (written i (pos k) match_index) q
      → (j : ℕ) × (c ≤ j)
        × (j ≤ q)
        × HasApplied
            (pos j)
            (replay m (take (suc j) s.log) start)
            (handle_append_entries_response (peer i) (append_entries_response_type msg) s).1
  handle_append_entries_response_commits match_index next i k a c q msg s role term taken sent
        small_k im il nodes la ci ac cl small store cq inside can =
      let (j, cj, jq, here, e) =
        handle_append_entries_response_confirms match_index next i k a c q msg s role term taken
          sent small_k im il nodes la ci ac cl small store cq inside can in
      let t = applied_to start (suc j) (caught_up match_index next i k s) in
      let state = replay m (take (suc j) s.log) start in
      (
        j,
        cj,
        jq,
        subst (λ (r : Outcome (Unit {0}) × Server S). HasApplied (pos j) state r.1) (sym e)
            (acknowledge_as-HasApplied (pos j) state t.state t (refl, refl, refl)),
      )
