-- ===== src/Server/Replicate/Success.antt =====
-- What a leader does when a follower has taken its entries (`handle_append_entries_response`,
-- src/server.rs).
use mini_raft.Prelude.{
  ℕ, ◌+◌, ◌≤◌, ◌<◌, ℤ, pos, ◌≡◌, refl, ap, ◌∙◌, true, some, List, le→not-ltb, lt→ltb, length,
  get_elem?, written, write-written, i32_size, u64_size, if◌then◌else◌, arith,
}
use mini_raft.Protocol.{NodeId, AppendEntriesResponse, append_entries_response_type, peer}
use mini_raft.StateMachine.{StateMachine}
use mini_raft.Server.State.{Server, leader}
use mini_raft.Server.Action.{ok, ◌>>=◌, pure}
use mini_raft.Server.Replicate.{
  record_success, update_commit, finish_commit, response_from, response_as,
  handle_append_entries_response,
}

module _ {S : Type 0} where
  -- The leader once peer i is known to have entry k.
  abbrev pub caught_up : List ℤ → List ℕ → NodeId → ℕ → Server S → Server S
  caught_up m next i k s = record s {
    inner = record s.inner { state = leader (written i (pos k) m) (written i (k + 1) next) };
  }

  record_success_lem :
      (m : List ℤ) (next : List ℕ) (i : NodeId) (k : ℕ) (s : Server S)
      → get_elem? s.last_sent_index i ≡ some (pos k)
      → k < i32_size
      → i < length m
      → i < length next
      → record_success i m next s ≡ (ok (written i (pos k) m), caught_up m next i k s)
  unfolding record_success
  record_success_lem m next i k s sent small a b =
      rw
        (
          sent,
          write-written m i (pos k) a,
          lt→ltb (k + 1) u64_size (omega arith),
          write-written next i (k + 1) b,
        )
        refl

  -- A success from peer i, in a term that is not later, at a leader whose vectors reach that far and
  -- that last sent the peer entry k: the peer is taken to have entry k and to want the next one; if
  -- the scan for a commit index then finds one, what is committed is applied and the client answered.
  pub handle_append_entries_response_taken :
      ⦃sm : StateMachine S⦄ (m : List ℤ) (next : List ℕ) (i : NodeId) (k : ℕ)
      (msg : AppendEntriesResponse) (s : Server S)
      → s.state ≡ leader m next
      → msg.term ≤ s.current_term
      → msg.success ≡ true
      → get_elem? s.last_sent_index i ≡ some (pos k)
      → k < i32_size
      → i < length m
      → i < length next
      → handle_append_entries_response (peer i) (append_entries_response_type msg) s
        ≡ (update_commit (written i (pos k) m) >>= λ updated.
              if updated then finish_commit else pure tt)
            (caught_up m next i k s)
  unfolding handle_append_entries_response response_as response_from
  handle_append_entries_response_taken m next i k msg s role term taken sent small a b =
      ap (λ st. response_as st (peer i) msg s) role
      ∙ rw
          (
            le→not-ltb s.current_term msg.term term,
            taken,
            record_success_lem m next i k s sent small a b,
          )
          refl
