-- ===== src/Cluster/History.antt =====
-- Nodes that run the server of src/server.rs from their start, each on the events that it has had so
-- far.
use mini_raft.Prelude.{ℕ, ◌==◌, if◌then◌else◌, Bool-cases, inl, inr, List, [], ◌∷◌, ◌++◌, AllOf}
use mini_raft.Protocol.{Message, Outgoing}
use mini_raft.StateMachine.{StateMachine}
use mini_raft.Server.State.{Server}
use mini_raft.Server.Loop.{Event, run}
use mini_raft.Server.Steps.{Write, Steps-kept}
use mini_raft.Server.Steps.Loops.{AllHeard, AllHeard-mono, AllHeard-append}
use mini_raft.Server.Steps.Ends.{run-Steps}
use mini_raft.Cluster.{Cluster, CanHear, AllOf-IsIn}

-- The events that each node has had, in order.
abbrev pub Histories : Type 0
Histories = ℕ → List Event

abbrev pub none_yet : Histories
none_yet i = []

abbrev pub with_event : ℕ → Event → Histories → Histories
with_event i e hs j = if j == i then hs j ++ e ∷ [] else hs j

-- An invariant of a node, under which what it has sent is good for the others to hear.
pub record IsInvariant {S : Type 0} (Good : Message → Type 0) (P : Server S → Type 0) : Type 0 where
  pub kept : (s t : Server S) → Write Good s t → P s → P t
  pub sends : (s : Server S) → P s → AllOf (λ (o : Outgoing). Good o.msg) s.to_network.sent

module _ {S : Type 0} ⦃m : StateMachine S⦄ (now : ℕ → ℕ) (first : Cluster S) where
  -- The nodes, each having run on its events from its start.
  abbrev pub nodes_after : Histories → Cluster S
  nodes_after hs i = (run (now i) (hs i) (first i)).1

  -- Histories in which a node hears what comes from outside, and what some node has sent by then.
  pub data Possible (Outside : Message → Type 0) : Histories → Type 0 where
    begun : Possible Outside none_yet
    hears :
        (i : ℕ) (e : Event) {hs : Histories}
        → Possible Outside hs
        → AllHeard (CanHear Outside (nodes_after hs)) (e ∷ [])
        → Possible Outside (with_event i e hs)

  module _ {Good Outside : Message → Type 0} {P : Server S → Type 0} (inv : IsInvariant Good P)
      (outside : (msg : Message) → Outside msg → Good msg) (fresh : (i : ℕ) → P (first i)) where
    runs_keep : (hs : Histories) → ((i : ℕ) → AllHeard Good (hs i)) → (i : ℕ) → P (nodes_after hs i)
    runs_keep hs h i =
        Steps-kept P inv.kept (run-Steps Good (now i) (hs i) (first i) (h i)) (fresh i)

    CanHear-Good :
        (nodes : Cluster S)
        → ((i : ℕ) → P (nodes i))
        → (msg : Message) → CanHear Outside nodes msg
        → Good msg
    CanHear-Good nodes h msg (inl o) = outside msg o
    CanHear-Good nodes h msg (inr (j, k)) = AllOf-IsIn Good msg _ (inv.sends (nodes j) (h j)) k

    -- All that is ever heard is good.
    heard_Good : {hs : Histories} → Possible Outside hs → (i : ℕ) → AllHeard Good (hs i)
    heard_Good begun i = tt
    heard_Good (hears k e {hs} p h) i = elim (Bool-cases (i == k)) [
      | inr other ↦ rw other (heard_Good p i)
      | inl same ↦ rw same (
          AllHeard-append Good (hs i) (e ∷ []) (heard_Good p i) (
            AllHeard-mono _ Good (CanHear-Good (nodes_after hs) (runs_keep hs (heard_Good p)))
              (e ∷ []) h))
    ]

    pub Possible-kept : {hs : Histories} → Possible Outside hs → (i : ℕ) → P (nodes_after hs i)
    Possible-kept {hs} p = runs_keep hs (heard_Good p)
