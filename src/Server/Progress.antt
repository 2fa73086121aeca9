-- ===== src/Server/Progress.antt =====
-- What no message can undo (src/server.rs): a node keeps its identity and configuration, its term
-- never goes back, and what it has sent stays sent.
pub mod Loops
use mini_raft.Prelude.{
  ◌≤◌, ◌≡◌, refl, sym, ◌∙◌, ap, [], ◌++◌, List, ◌∷◌, append_assoc, append-nil, arith,
}
use mini_raft.Protocol.{Message, Outgoing}
use mini_raft.Server.State.{Server}
use mini_raft.Server.Steps.{
  Write, sent, limited, raised, followed, stood, counted, led, tracked, marked, committed, applied,
  settled, stored, merged, pushed, Write-term, Steps, here, then_write,
}

pub record Later {S : Type 0} (s t : Server S) : Type 0 where
  pub same_id : t.id ≡ s.id
  pub same_config : t.config ≡ s.config
  pub term_le : s.current_term ≤ t.current_term
  pub sent_more : (more : List Outgoing) × (t.to_network.sent ≡ s.to_network.sent ++ more)

module _ {S : Type 0} where
  Later-refl : (s : Server S) → Later s s
  Later-refl s = record {
    same_id = refl;
    same_config = refl;
    term_le = omega arith;
    sent_more = ([], sym (append-nil _));
  }

  Later-trans : (s t u : Server S) → Later s t → Later t u → Later s u
  Later-trans s t u a b = record {
    same_id = b.same_id ∙ a.same_id;
    same_config = b.same_config ∙ a.same_config;
    term_le = omega arith;
    sent_more =
        let (m, e) = a.sent_more in
        let (n, f) = b.sent_more in
        (m ++ n, f ∙ ap (λ l. l ++ n) e ∙ append_assoc s.to_network.sent m n);
  }

  -- A step that writes neither the term nor the channel.
  Later-of :
      (s t : Server S)
      → t.id ≡ s.id
      → t.config ≡ s.config
      → s.current_term ≤ t.current_term
      → t.to_network ≡ s.to_network
      → Later s t
  Later-of s t i c h n = record {
    same_id = i;
    same_config = c;
    term_le = h;
    sent_more = ([], ap (λ q. q.sent) n ∙ sym (append-nil _));
  }

  Write-Later : {Heard : Message → Type 0} (s t : Server S) → Write Heard s t → Later s t
  Write-Later s _ (sent o room h) = record {
    same_id = refl;
    same_config = refl;
    term_le = omega arith;
    sent_more = (o ∷ [], refl);
  }
  Write-Later s t (limited room) = record {
    same_id = refl;
    same_config = refl;
    term_le = omega arith;
    sent_more = ([], sym (append-nil _));
  }
  Write-Later s t (raised m n a b c) = Later-of s t refl refl c refl
  Write-Later s t (followed m n a b c) = Later-of s t refl refl c refl
  Write-Later {Heard} s t (stood m n e) =
      Later-of s t refl refl (Write-term {Heard = Heard} s t (stood m n e)) refl
  Write-Later s t _ = Later-of s t refl refl (omega arith) refl

  pub Steps-Later : {Heard : Message → Type 0} {s t : Server S} → Steps Heard s t → Later s t
  Steps-Later {s} here = Later-refl s
  Steps-Later {s} (then_write {t} {u} r w) = Later-trans s t u (Steps-Later r) (Write-Later t u w)
