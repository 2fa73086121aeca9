-- ===== src/Server/Safety/Shape.antt =====
-- The lengths of the vectors that a server indexes by node (src/server.rs).
use mini_raft.Prelude.{ℕ, ◌+◌, ◌≡◌, refl, sym, ap, subst, ◌∙◌, List, length, length-replicate}
use mini_raft.StateMachine.{StateMachine}
use mini_raft.Server.State.{Server, RaftState, leader}
use mini_raft.Server.Loop.{Event, run}
use mini_raft.Server.Steps.{Write, followed, counted, led, tracked, marked, Steps-kept}
use mini_raft.Server.Steps.Ends.{run-Steps, heard_anything}

-- `match_index` and `next_index` have one entry for each node, and one more.
abbrev pub HasRoleShape : ℕ → RaftState → Type 0
HasRoleShape n (leader match_index next_index) = (length match_index ≡ n) × (length next_index ≡ n)
HasRoleShape n _ = Unit

pub record HasShape {S : Type 0} (s : Server S) : Type 0 where
  pub role : HasRoleShape (s.config.total_nodes + 1) s.state
  pub marks : length s.last_sent_index ≡ s.config.total_nodes + 1

module _ {S : Type 0} where
  same_vectors :
      (s t : Server S)
      → HasShape s
      → t.config ≡ s.config
      → t.state ≡ s.state
      → t.last_sent_index ≡ s.last_sent_index
      → HasShape t
  same_vectors s t h config state marks =
      let nodes = ap (λ c. c.total_nodes + 1) (sym config) in
      record {
        role =
            subst (HasRoleShape (t.config.total_nodes + 1)) (sym state)
              (subst (λ n. HasRoleShape n s.state) nodes h.role);
        marks = ap length marks ∙ h.marks ∙ nodes;
      }

  Write-HasShape : {Heard : _ → Type 0} (s t : Server S) → Write Heard s t → HasShape s → HasShape t
  Write-HasShape s t (followed msg term h e le) b = record { role = tt; marks = b.marks }
  Write-HasShape s t (counted votes lt) b = record { role = tt; marks = b.marks }
  Write-HasShape s t led b = record {
    role = (length-replicate _ _, length-replicate _ _);
    marks = b.marks;
  }
  Write-HasShape s t (tracked m n m₁ n₁ e l k) b =
      let old = subst (HasRoleShape (s.config.total_nodes + 1)) e b.role in
      record { role = (l ∙ old.0, k ∙ old.1); marks = b.marks }
  Write-HasShape s t (marked l e) b = record { role = b.role; marks = e ∙ b.marks }
  Write-HasShape s t _ b = same_vectors s t b refl refl refl

  -- The vectors that are indexed by node keep one entry for each node and one more through any run,
  -- those of a leader from the moment it leads: a node number up to `total_nodes` is never out of
  -- their bounds.
  pub run-HasShape :
      ⦃m : StateMachine S⦄ (now : ℕ) (events : List Event) (s : Server S)
      → HasShape s
      → HasShape (run now events s).1
  run-HasShape now events s b =
      Steps-kept HasShape Write-HasShape
        (run-Steps (λ _. Unit) now events s (heard_anything events)) b
