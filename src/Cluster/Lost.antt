-- ===== src/Cluster/Lost.antt =====
-- What a leader that lags behind does to the log of a node that voted for it (`candidate`,
-- `handle_request_vote_rpc`, `handle_set_command` and `handle_append_entries`, src/server.rs).
use mini_raft.Prelude.{
  ℕ, suc, ◌+◌, ◌-◌, ◌≤◌, ◌<◌, negsuc, i32_size, ◌≡◌, ◌≢◌, refl, sym, ap, subst, ◌∙◌, inl, inr, true,
  dec_lt, String, List, [], ◌∷◌, ◌++◌, append-nil, last?, map, length, length-snoc, replicate, take,
  AllOf, arith,
}
use mini_raft.Protocol.{NodeId, LogEntry, RequestVote, peer, Outgoing}
use mini_raft.StateMachine.{StateMachine}
use mini_raft.Server.State.{Server, Sender, follower}
use mini_raft.Server.Action.{Outcome}
use mini_raft.Server.Roles.{first_next_index}
use mini_raft.Server.Apply.Replay.{upto, replay, IsReliable}
use mini_raft.Server.Append.{handle_append_entries}
use mini_raft.Server.Vote.{vote_reply, handle_request_vote_rpc}
use mini_raft.Server.Vote.Grant.{Grants, delivered, handle_request_vote_rpc-Grants}
use mini_raft.Server.Vote.Election.{quorum}
use mini_raft.Server.Loop.{Left, is_leader, candidate}
use mini_raft.Server.Loop.Wins.{replies, request_in, standing, led, candidate_lem}
use mini_raft.Server.Client.{handle_set_command}
use mini_raft.Server.Client.Sent.{
  others, before, term_before, next_of, notice, command_entry, pushed, handle_set_command_sends,
}
use mini_raft.Cluster.Elections.{
  CanStand, CanVote, Voters, votes_for, ballots, votes_for-replies, length-ballots, all_granted,
  ballots-NoneNewer,
}
use mini_raft.Cluster.Overwrites.{
  next_of-replicate, first_next_index-upto, TracksAll-replicate, entry_replaces,
}

-- A node that lags: it has committed and applied all of its log, which is not empty, and its vectors
-- reach every peer.
pub record HasCaughtUp {S : Type 0} (p : Server S) : Type 0 where
  pub filled : 0 < length p.log
  pub small : length p.log + 1 < i32_size
  pub last : p.last_applied ≡ upto (length p.log)
  pub commit : p.commit_index ≡ upto (length p.log)
  pub marks : length p.last_sent_index ≡ p.config.total_nodes + 1
  pub peers : AllOf (λ q. q.0 ≤ p.config.total_nodes) p.config.peer_addresses

-- A node whose log goes on behind that one's with entry x: it has committed and applied c entries, x
-- among them, to a reliable store.
pub record IsAhead {S : Type 0} (m : StateMachine S) (p f : Server S) (x : LogEntry) : Type 0 where
  pub rest : List LogEntry
  pub c : ℕ
  pub start : S
  pub role : f.state ≡ follower
  pub log : f.log ≡ p.log ++ x ∷ rest
  pub past : length p.log < c
  pub inside : c ≤ length f.log
  pub small : length f.log < i32_size
  pub last : f.last_applied ≡ upto c
  pub commit : f.commit_index ≡ upto c
  pub store : f.state_machine ≡ replay m (take c f.log) start

module _ {S : Type 0} where
  HasCaughtUp-standing : (now : ℕ) (p : Server S) → HasCaughtUp p → HasCaughtUp (standing now p)
  HasCaughtUp-standing now p h = record {
    filled = h.filled;
    small = h.small;
    last = h.last;
    commit = h.commit;
    marks = h.marks;
    peers = h.peers;
  }

  -- To vote changes nothing but the channel.
  IsAhead-voted :
      ⦃m : StateMachine S⦄ (now : ℕ) (p f : Server S) (x : LogEntry) (o : Outgoing) (r : ℕ)
      → IsAhead m p f x
      → IsAhead m (standing now p) (delivered o r f) x
  IsAhead-voted now p f x o r g = record {
    rest = g.rest;
    c = g.c;
    start = g.start;
    role = g.role;
    log = g.log;
    past = g.past;
    inside = g.inside;
    small = g.small;
    last = g.last;
    commit = g.commit;
    store = g.store;
  }

  votes_once :
      (msg : RequestVote) (f : Server S) (c : CanVote msg.term f)
      → (handle_request_vote_rpc msg f).1
        ≡ delivered (vote_reply msg.candidate_id f.current_term true) (suc c.room) f
  votes_once msg f c =
      ap (λ (q : Outcome (Unit {0}) × Server S). q.1)
        (handle_request_vote_rpc-Grants msg f (suc c.room) c.space
          (subst (λ v. Grants f.current_term v (last? f.log) msg) (sym c.free) c.old))

abbrev vector : {S : Type 0} → Server S → List ℕ
vector p = replicate (p.config.total_nodes + 1) (first_next_index p.last_applied)

-- The message for node i with the first command of a new leader.
abbrev pub first_notice : {S : Type 0} → String → String → ℕ → ℕ → Server S → NodeId → Outgoing
first_notice key value client_id request_id p i =
    let entry = command_entry key value client_id request_id p in
    notice entry (vector p) (pushed entry p) i

module _ {S : Type 0} ⦃m : StateMachine S⦄ (reliable : IsReliable m) (key value : String)
    (client_id request_id : ℕ) where
  new_leader_sends :
      (net : Sender) (w : Server S)
      → HasCaughtUp w
      → length (others w.id w.config.peer_addresses) ≤ net.room
      → (handle_set_command key value client_id request_id (led net w)).1.to_network.sent
        ≡ net.sent
          ++ map
              (first_notice key value client_id request_id (led net w))
              (others w.id w.config.peer_addresses)
  new_leader_sends net w h room =
      let entry = command_entry key value client_id request_id w in
      let next = first_next_index-upto (length w.log) in
      ap (λ (q : Outcome (Unit {0}) × Server S). q.1.to_network.sent)
        (handle_set_command_sends key value client_id request_id
          (replicate (w.config.total_nodes + 1) (negsuc 0)) (vector w) (led net w)
          (net.room - length (others w.id w.config.peer_addresses)) refl h.small
          (TracksAll-replicate w.config.total_nodes (first_next_index w.last_applied)
            (pushed entry (led net w)) w.config.peer_addresses h.peers
            (omega (arith, next, ap first_next_index h.last, length-snoc w.log entry)) h.marks)
          (omega arith))

  -- It takes the place of a committed entry.
  notice_replaces :
      (net : Sender) (w f : Server S) (i r : ℕ) (x : LogEntry)
      → HasCaughtUp w
      → IsAhead m w f x
      → i ≤ w.config.total_nodes
      → x.term ≢ w.current_term
      → f.current_term ≤ w.current_term
      → f.to_network.room ≡ suc r
      → let taken =
          (handle_append_entries
            (peer w.id)
            (first_notice key value client_id request_id (led net w) i).msg
            f).1 in
        (taken.log ≡ w.log ++ command_entry key value client_id request_id w ∷ [])
        × (taken.last_applied ≡ f.last_applied)
        × (taken.state_machine ≡ f.state_machine)
  notice_replaces net w f i r x h g known differs old room =
      let entry = command_entry key value client_id request_id w in
      let n = length w.log in
      let next : next_of (vector w) i ≡ n =
        next_of-replicate (w.config.total_nodes + 1) (first_next_index w.last_applied) i
          (omega arith)
        ∙ ap first_next_index h.last
        ∙ first_next_index-upto n in
      let (log, last, store) =
        entry_replaces reliable w.id _ w.log g.rest (entry ∷ []) entry x f g.c r g.start h.filled
          refl refl (ap before next) (ap (term_before (w.log ++ entry ∷ [])) next) h.commit
          (elim (dec_lt f.current_term w.current_term) [
            | yes later ↦ inr (later, g.role)
            | no same ↦ inl (omega arith)
          ])
          g.log differs g.last g.commit (omega (arith, g.past)) g.inside g.small g.store room in
      (log, last ∙ sym g.last, store)

  -- The candidate as the leader that it becomes.
  wins_led :
      (now : ℕ) (p : Server S) (fs : Voters S)
      → CanStand p
      → AllOf (λ v. CanVote (p.current_term + 1) v.2) fs
      → quorum p ≤ length fs
      → (net : Sender) × (p.to_network.room ≤ net.room + length fs)
        × ((candidate now (votes_for p fs) p).1 ≡ led net (standing now p))
  wins_led now p fs c free enough =
      let (_, _, net, spent, e) =
        candidate_lem now (ballots fs) [] p 0 c.role (omega arith) c.nodes c.small c.fits
          (ballots-NoneNewer (p.current_term + 1) fs free) (omega (arith, all_granted fs)) in
      (
        net,
        omega (arith, spent, length-ballots fs),
        ap (λ es. (candidate now es p).1)
              (votes_for-replies p fs ∙ sym (append-nil (replies (ballots fs))))
            ∙ ap (λ (q : Outcome Left × Server S). q.1) e,
      )

  -- Leader `leads` of the nodes of p, and what it makes of node `voted`, which was f.
  abbrev IsLost : ℕ → Server S → Server S → Server S → Server S → Type 0
  IsLost i p f voted leads =
      let taken =
        (handle_append_entries (peer p.id) (first_notice key value client_id request_id leads i).msg
          voted).1 in
      (voted.to_network.sent ≡ f.to_network.sent ++ vote_reply p.id f.current_term true ∷ [])
      × (is_leader leads.state ≡ true)
      × ((handle_set_command key value client_id request_id leads).1.to_network.sent
          ≡ leads.to_network.sent
            ++ map (first_notice key value client_id request_id leads)
                (others p.id p.config.peer_addresses))
      × (taken.log ≡ p.log ++ command_entry key value client_id request_id leads ∷ [])
      × (taken.last_applied ≡ f.last_applied)
      × (taken.state_machine ≡ f.state_machine)

  -- A committed entry is lost. The election timer of p has just fired, and p can stand in one term
  -- more, its log and configuration being within the range of the casts; it has committed and applied
  -- all of its log, which is not empty, its vectors reach every peer, and its channel has room for a
  -- message for each peer and each vote. There are voters, as many as it needs, that have voted for
  -- nobody, are in no later term than that and have room for two messages. One of them, f, a follower
  -- that is peer i to p, goes on behind p's log with entry x of another term than p will lead in, and
  -- has committed and applied all up to x or further to a reliable store. Then f votes for p, and p
  -- leads once the votes come in. When p, as its candidate's loop leaves it, handles a client's set and
  -- f takes the message for it, the new entry takes the place of x and of all behind it in f's log,
  -- while f's last applied index and its store stay as they were.
  pub committed_lost :
      (now at from i : ℕ) (p f : Server S) (fs : Voters S) (x : LogEntry)
      → CanStand p
      → HasCaughtUp p
      → length (others p.id p.config.peer_addresses) + suc (length fs) ≤ p.to_network.room
      → CanVote (p.current_term + 1) f
      → AllOf (λ v. CanVote (p.current_term + 1) v.2) fs
      → quorum p ≤ suc (length fs)
      → IsAhead m p f x
      → x.term ≢ p.current_term + 1
      → i ≤ p.config.total_nodes
      → let led₁ = (candidate now (votes_for p ((at, from, f) ∷ fs)) p).1 in
        let voted = (handle_request_vote_rpc (request_in (standing now p)) f).1 in
        let taken =
          (handle_append_entries
            (peer p.id)
            (first_notice key value client_id request_id led₁ i).msg
            voted).1 in
        (voted.to_network.sent ≡ f.to_network.sent ++ vote_reply p.id f.current_term true ∷ [])
        × (is_leader led₁.state ≡ true)
        × ((handle_set_command key value client_id request_id led₁).1.to_network.sent
            ≡ led₁.to_network.sent
              ++ map
                  (first_notice key value client_id request_id led₁)
                  (others p.id p.config.peer_addresses))
        × (taken.log ≡ p.log ++ command_entry key value client_id request_id led₁ ∷ [])
        × (taken.last_applied ≡ f.last_applied)
        × (taken.state_machine ≡ f.state_machine)
  unfolding is_leader
  committed_lost now at from i p f fs x stands h room free frees enough g differs known =
      let voters = (at, from, f) ∷ fs in
      let w = standing now p in
      let hw = HasCaughtUp-standing now p h in
      let (net, left, wins) = wins_led now p voters stands (free, frees) enough in
      let voted = delivered (vote_reply p.id f.current_term true) (suc free.room) f in
      let votes = votes_once (request_in w) f free in
      let (log, last, store) =
        notice_replaces net w voted i free.room x hw (IsAhead-voted now p f x _ _ g) known differs
          free.old refl in
      subst (IsLost i p f _) (sym wins) (
        subst (λ t. IsLost i p f t (led net w)) (sym votes)
          (refl, refl, new_leader_sends net w hw (omega arith), log, last, store))
