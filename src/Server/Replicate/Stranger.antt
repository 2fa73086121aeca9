-- ===== src/Server/Replicate/Stranger.antt =====
-- What a leader does with a reply from a node that it does not count (`handle_append_entries_response`,
-- src/server.rs).
use mini_raft.Prelude.{
  ℕ, ◌+◌, ◌≤◌, ◌<◌, ℤ, ◌≡◌, refl, ap, ◌∙◌, Bool, true, false, List, le→not-ltb, length,
  get_elem?-none, subst, arith,
}
use mini_raft.Protocol.{NodeId, AppendEntriesResponse, append_entries_response_type, peer}
use mini_raft.StateMachine.{StateMachine}
use mini_raft.Server.State.{Server, leader}
use mini_raft.Server.Action.{fault}
use mini_raft.Server.Replicate.{
  record_success, record_failure, response_from, response_as, handle_append_entries_response,
}
use mini_raft.Server.Safety.Shape.{HasShape, HasRoleShape}

module _ {S : Type 0} ⦃sm : StateMachine S⦄ where
  response_from_panics :
      (i : NodeId) (m : List ℤ) (next : List ℕ) (success : Bool) (s : Server S)
      → length next ≤ i
      → length s.last_sent_index ≤ i
      → (response_from (peer i) m next success s).0 ≡ fault
  unfolding response_from record_success record_failure
  response_from_panics i m next true s a b = rw (get_elem?-none s.last_sent_index i b) refl
  response_from_panics i m next false s a b = rw (get_elem?-none next i a) refl

  -- A leader whose vectors have their lengths, as those of every leader that a run has made have,
  -- panics on any AppendEntriesResponse from a peer whose number is above `total_nodes`, success or
  -- not, unless it is of a later term. A peer's number is what its greeting says.
  pub handle_append_entries_response_panics :
      (i : NodeId) (m : List ℤ) (next : List ℕ) (msg : AppendEntriesResponse) (s : Server S)
      → s.state ≡ leader m next
      → HasShape s
      → s.config.total_nodes < i
      → msg.term ≤ s.current_term
      → (handle_append_entries_response (peer i) (append_entries_response_type msg) s).0 ≡ fault
  unfolding handle_append_entries_response response_as
  handle_append_entries_response_panics i m next msg s role h above old =
      let lengths = subst (HasRoleShape (s.config.total_nodes + 1)) role h.role in
      ap (λ st. (response_as st (peer i) msg s).0) role
      ∙ rw (response_as, le→not-ltb s.current_term msg.term old)
          (response_from_panics i m next msg.success s (omega (arith, lengths.1))
            (omega (arith, h.marks)))
