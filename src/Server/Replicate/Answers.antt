-- ===== src/Server/Replicate/Answers.antt =====
-- The answer to a client whose command is committed (`handle_append_entries_response`, src/server.rs).
use mini_raft.Prelude.{
  ℕ, suc, ◌+◌, ◌≤◌, ◌<◌, ℤ, pos, ◌≡◌, refl, ap, ◌∙◌, true, none, some, Option, List, length,
  get_elem?, get_elem?-some, take, written, write-written, length-written, as_usize, i32_size,
  arith,
}
use mini_raft.Protocol.{
  NodeId, LogCommand, LogEntry, ClientResponse, AppendEntriesResponse, append_entries_response_type,
  client_response_type, peer, to_client, Outgoing,
}
use mini_raft.StateMachine.{StateMachine}
use mini_raft.Server.State.{Server, leader}
use mini_raft.Server.Action.{ok}
use mini_raft.Server.Apply.Replay.{upto, replay, IsReliable}
use mini_raft.Server.Vote.Grant.{delivered, send_room}
use mini_raft.Server.Replicate.{
  client_reply, send_reply, answer_client, acknowledge_as, handle_append_entries_response,
}
use mini_raft.Server.Replicate.Quorum.{IsCommittable}
use mini_raft.Server.Replicate.Finish.{applied_to}
use mini_raft.Server.Replicate.Success.{caught_up}
use mini_raft.Server.Replicate.Commits.{handle_append_entries_response_confirms}

-- The answer to the client of an entry: that its command has succeeded, under the number of its
-- request; a `get` has none.
abbrev pub answer_for : LogEntry → LogCommand → Option Outgoing
answer_for e (LogCommand.set _ _) = some (record {
  dest = to_client e.client_id;
  msg = client_response_type (ClientResponse.set_success e.request_id);
})
answer_for e (LogCommand.delete _) = some (record {
  dest = to_client e.client_id;
  msg = client_response_type (ClientResponse.delete_success e.request_id true);
})
answer_for e (LogCommand.get _) = none

client_reply-answer_for :
    (e : LogEntry) (command : LogCommand) → client_reply e command ≡ answer_for e command
unfolding client_reply
client_reply-answer_for e (LogCommand.set _ _) = refl
client_reply-answer_for e (LogCommand.delete _) = refl
client_reply-answer_for e (LogCommand.get _) = refl

-- The server once a reply has gone out, if there is one, with room for r more messages.
abbrev pub replied : {S : Type 0} → Option Outgoing → ℕ → Server S → Server S
replied none r s = s
replied (some o) r s = delivered o r s

-- A leader that counts itself among the nodes with the last committed entry.
abbrev pub counted : {S : Type 0} → List ℤ → List ℕ → Server S → Server S
counted m next s = record s {
  inner = record s.inner { state = leader (written s.id s.commit_index m) next };
}

send_reply-replied :
    {S : Type 0} (o : Option Outgoing) (r : ℕ) (s : Server S)
    → s.to_network.room ≡ suc r
    → send_reply o s ≡ (ok tt, replied o r s)
unfolding send_reply
send_reply-replied none r s room = refl
send_reply-replied (some o) r s room = send_room o s r room

acknowledge_as-replied :
    {S : Type 0} (m : List ℤ) (next : List ℕ) (r : ℕ) (e : LogEntry) (t : Server S)
    → t.id < length m
    → get_elem? t.log (as_usize t.commit_index) ≡ some e
    → t.to_network.room ≡ suc r
    → acknowledge_as (leader m next) t
      ≡ (ok tt, replied (answer_for e e.command) r (counted m next t))
unfolding acknowledge_as answer_client
acknowledge_as-replied m next r e t inside found room =
    rw (write-written m t.id t.commit_index inside, found)
      (send_reply-replied (client_reply e e.command) r (counted m next t) room
        ∙ ap (λ o. (ok tt, replied o r (counted m next t))) (client_reply-answer_for e e.command))

-- A leader once a success of peer i, which was last sent entry k, has committed and applied the
-- entries up to j to the store `start`.
abbrev pub confirmed :
    {S : Type 0} → ⦃m : StateMachine S⦄ → S → List ℤ → List ℕ → NodeId → ℕ → ℕ → Server S → Server S
confirmed start match_index next i k j s =
    counted (written i (pos k) match_index) (written i (k + 1) next)
      (applied_to start (suc j) (caught_up match_index next i k s))

module _ {S : Type 0} ⦃m : StateMachine S⦄ (reliable : IsReliable m) (start : S) where
  -- A success of peer i, which was last sent entry k, at a leader of 2 nodes or more in that term,
  -- whose vectors reach that far and to itself, with room for a message, with c entries committed and
  -- the first a ≤ c of them applied to a reliable store, and a log that is shorter than 2^31. If some
  -- entry q that is not yet committed is of the leader's term and now at more than half of the nodes,
  -- then nothing fails, and all that changes is: the peer is noted to have entry k and to want the
  -- next one; the commit index moves to such an entry j, q or one before it; the entries up to j and
  -- no others are applied, in order, and the last applied index is j; the leader notes that it has j
  -- itself; and if the command of entry j is a set or a delete, its client, and no other, gets a
  -- success under the number of its request.
  pub handle_append_entries_response_answers :
      (match_index : List ℤ) (next : List ℕ) (i : NodeId) (k a c q r : ℕ)
      (msg : AppendEntriesResponse) (s : Server S)
      → s.state ≡ leader match_index next
      → msg.term ≤ s.current_term
      → msg.success ≡ true
      → get_elem? s.last_sent_index i ≡ some (pos k)
      → k < i32_size
      → i < length match_index
      → i < length next
      → 2 ≤ s.config.total_nodes
      → s.last_applied ≡ upto a
      → s.commit_index ≡ upto c
      → a ≤ c
      → c ≤ length s.log
      → length s.log < i32_size
      → s.state_machine ≡ replay m (take a s.log) start
      → c ≤ q
      → q < length s.log
      → IsCommittable s (written i (pos k) match_index) q
      → s.id < length match_index
      → s.to_network.room ≡ suc r
      → (j : ℕ) × (e : LogEntry) × (c ≤ j)
        × (j ≤ q)
        × IsCommittable s (written i (pos k) match_index) j
        × (get_elem? s.log j ≡ some e)
        × (handle_append_entries_response (peer i) (append_entries_response_type msg) s ≡ (
          ok tt,
          replied (answer_for e e.command) r (confirmed start match_index next i k j s),
        ))
  handle_append_entries_response_answers match_index next i k a c q r msg s role term taken sent
        small_k im il nodes la ci ac cl small store cq inside can self room =
      let (j, cj, jq, here, e) =
        handle_append_entries_response_confirms reliable start match_index next i k a c q msg s role
          term taken sent small_k im il nodes la ci ac cl small store cq inside can in
      let (entry, found) = get_elem?-some s.log j (omega arith) in
      (
        j,
        entry,
        cj,
        jq,
        here,
        found,
        e
            ∙ acknowledge_as-replied (written i (pos k) match_index) (written i (k + 1) next) r
                entry (applied_to start (suc j) (caught_up match_index next i k s))
                (omega (arith, length-written i (pos k) match_index)) found room,
      )
