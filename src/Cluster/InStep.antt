-- ===== src/Cluster/InStep.antt =====
-- What a leader notes of its peers, and a peer that is in step with it (src/server.rs).
use mini_raft.Prelude.{
  ℕ, zero, suc, ◌≤◌, ◌<◌, ℤ, pos, ◌≡◌, refl, ◌∙◌, String, List, [], ◌∷◌, length, written,
  length-written, take, le→not-ltb, arith,
}
use mini_raft.Protocol.{NodeId}
use mini_raft.StateMachine.{StateMachine}
use mini_raft.Server.State.{Server}
use mini_raft.Server.Apply.Replay.{upto, replay}
use mini_raft.Server.Client.Sent.{all_written, TracksAll}
use mini_raft.Server.Replicate.{match_count}

pub length-all_written :
    (is : List NodeId) (z : ℤ) (xs : List ℤ) → length (all_written is z xs) ≡ length xs
length-all_written [] z xs = refl
length-all_written (i ∷ is) z xs = length-all_written is z (written i z xs) ∙ length-written i z xs

-- A node that is noted to have more than entry n counts for n.
pub match_count-written :
    (n v i : ℕ) (xs : List ℤ)
    → n ≤ v
    → i < length xs
    → 1 ≤ match_count (pos n) (written i (pos v) xs)
unfolding match_count
match_count-written n v i [] h inside = absurd (omega arith)
match_count-written n v zero (x ∷ xs) h inside = ground (arith, le→not-ltb v n h)
match_count-written n v (suc i) (x ∷ xs) h inside =
    let rest = match_count-written n v i xs h (omega arith) in ground (arith, rest)

pub TracksAll-grows :
    {S : Type 0} (next : List ℕ) (s t : Server S) (ps : List (NodeId × String))
    → s.id ≡ t.id
    → length s.log ≤ length t.log
    → length s.last_sent_index ≡ length t.last_sent_index
    → TracksAll next s ps
    → TracksAll next t ps
TracksAll-grows next s t [] same longer marks _ = tt
TracksAll-grows next s t ((p, _) ∷ ps) same longer marks (h, hs) = (
  λ ne. let (a, b, c) = h (λ e. ne (e ∙ same)) in (a, omega arith, omega (arith, c, marks)),
  TracksAll-grows next s t ps same longer marks hs,
)

-- A node in step with the leader s: it has the leader's log and term, its reliable store is what the
-- first of its committed entries give, and there is room for its reply.
pub record IsInStep {S : Type 0} (m : StateMachine S) (s f : Server S) : Type 0 where
  pub applied : ℕ
  pub committed : ℕ
  pub initial : S
  pub room : ℕ
  pub same_log : f.log ≡ s.log
  pub same_term : f.current_term ≡ s.current_term
  pub last : f.last_applied ≡ upto applied
  pub commit : f.commit_index ≡ upto committed
  pub order : applied ≤ committed
  pub inside : committed ≤ length s.log
  pub store : f.state_machine ≡ replay m (take applied f.log) initial
  pub space : f.to_network.room ≡ suc room
