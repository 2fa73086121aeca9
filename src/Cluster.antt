-- ===== src/Cluster.antt =====
-- Nodes that run the server of src/server.rs side by side. What a node hears is what some node has
-- sent so far, or comes from outside; messages may be lost, repeated, delayed and reordered.
pub mod History
pub mod Safety
pub mod Replication
pub mod Commit
pub mod InStep
pub mod Pipelined
pub mod Wire
pub mod Following
pub mod Elections
pub mod Overwrites
pub mod Lost
use mini_raft.Prelude.{
  ℕ, ◌==◌, if◌then◌else◌, Bool-cases, inl, inr, ◌≡◌, subst, ap, sym, ◌⊎◌, List, [], ◌∷◌, AllOf,
  true, false,
}
use mini_raft.Protocol.{Message, Outgoing}
use mini_raft.StateMachine.{StateMachine}
use mini_raft.Server.State.{Server}
use mini_raft.Server.Loop.{Event, run}
use mini_raft.Server.Steps.{Write, Steps, Steps-kept, Steps-hears}
use mini_raft.Server.Steps.Loops.{AllHeard}
use mini_raft.Server.Steps.Ends.{run-Steps}

-- A node for each number.
abbrev pub Cluster : Type 0 → Type 0
Cluster S = ℕ → Server S

abbrev pub IsIn : Message → List Outgoing → Type 0
IsIn msg [] = ⊥
IsIn msg (o ∷ os) = (o.msg ≡ msg) ⊎ IsIn msg os

pub AllOf-IsIn :
    (Good : Message → Type 0) (msg : Message) (os : List Outgoing)
    → AllOf (λ o. Good o.msg) os
    → IsIn msg os
    → Good msg
AllOf-IsIn Good msg [] h k = absurd k
AllOf-IsIn Good msg (o ∷ os) h (inl e) = subst Good e h.0
AllOf-IsIn Good msg (o ∷ os) h (inr k) = AllOf-IsIn Good msg os h.1 k

module _ {S : Type 0} where
  abbrev pub replaced : ℕ → Server S → Cluster S → Cluster S
  replaced i t nodes j = if j == i then t else nodes j

  -- What a node may hear: what comes from outside, and what some node has sent.
  abbrev pub CanHear : (Message → Type 0) → Cluster S → Message → Type 0
  CanHear Outside nodes msg = Outside msg ⊎ ((j : ℕ) × IsIn msg (nodes j).to_network.sent)

  -- The clusters that are reached: one node after the other makes some writes.
  pub data Reaches (Outside : Message → Type 0) (nodes : Cluster S) : Cluster S → Type 0 where
    start : Reaches Outside nodes nodes
    acts :
        (i : ℕ) (t : Server S) {later : Cluster S}
        → Reaches Outside nodes later
        → Steps (CanHear Outside later) (later i) t
        → Reaches Outside nodes (replaced i t later)

  -- A node that runs on messages that it can hear.
  pub Reaches-run :
      ⦃m : StateMachine S⦄ {Outside : Message → Type 0} {nodes later : Cluster S} (i now : ℕ)
      (events : List Event)
      → AllHeard (CanHear Outside later) events
      → Reaches Outside nodes later
      → Reaches Outside nodes (replaced i (run now events (later i)).1 later)
  Reaches-run {Outside} {later} i now events g r =
      acts i _ r (run-Steps (CanHear Outside later) now events (later i) g)
