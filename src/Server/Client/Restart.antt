-- ===== src/Server/Client/Restart.antt =====
-- What a leader's message for a new command does to a node that has lost its log, or never had one
-- (`handle_set_command` and `handle_append_entries`, src/server.rs).
use mini_raft.Prelude.{
  refl, ap, ℕ, ℤ, ◌+◌, ◌<◌, ◌≡◌, sym, String, List, [], ◌++◌, map, length, i32_size,
}
use mini_raft.Protocol.{NodeId, peer}
use mini_raft.StateMachine.{StateMachine}
use mini_raft.Server.State.{Server, leader}
use mini_raft.Server.Action.{Outcome, fault}
use mini_raft.Server.Apply.Replay.{upto, IsReliable}
use mini_raft.Server.Append.{handle_append_entries}
use mini_raft.Server.Append.Replies.{handle_append_entries_panics}
use mini_raft.Server.Client.{handle_set_command}
use mini_raft.Server.Client.Sent.{
  command_entry, notice, pushed, others, TracksAll, handle_set_command_sends,
}

-- A leader of a log that is not empty and stays shorter than 2^31, which tracks every peer and has
-- room for a message to each, is asked to set a key. The messages that it sends, one for each of its
-- peers, each make a node panic that is in the leader's term and has an empty log, nothing committed
-- or applied, and a reliable store.
pub notice_panics :
    {S : Type 0} ⦃m : StateMachine S⦄ (reliable : IsReliable m) (key value : String)
    (client_id request_id : ℕ) (match_index : List ℤ) (next : List ℕ) (i : NodeId) (r : ℕ)
    (s f : Server S)
    → s.state ≡ leader match_index next
    → length s.log + 1 < i32_size
    → TracksAll next
        (pushed (command_entry key value client_id request_id s) s)
        s.config.peer_addresses
    → s.to_network.room ≡ length (others s.id s.config.peer_addresses) + r
    → 0 < length s.log
    → f.current_term ≡ s.current_term
    → f.log ≡ []
    → f.last_applied ≡ upto 0
    → f.commit_index ≡ upto 0
    → let entry = command_entry key value client_id request_id s in
      let message = notice entry next (pushed entry s) in
      ((handle_set_command key value client_id request_id s).1.to_network.sent
        ≡ s.to_network.sent ++ map message (others s.id s.config.peer_addresses))
      × ((handle_append_entries (peer s.id) (message i).msg f).0 ≡ fault)
notice_panics {S} reliable key value client_id request_id match_index next i r s f role small tracks
      room filled same empty a b =
    (
      ap (λ (q : Outcome (Unit {0}) × Server S). q.1.to_network.sent)
          (handle_set_command_sends key value client_id request_id match_index next s r role small
            tracks room),
      handle_append_entries_panics reliable s.id _ f (length s.log) (sym same) empty a b (λ e. cc e)
          (refl, tt) filled,
    )
