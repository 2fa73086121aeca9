-- ===== src/Network/Registry/Sends.antt =====
-- What a send and a registration do to the channels of a registry (src/network.rs).
use mathlib.Core.Option
use mini_raft.Prelude.{
  ℕ, zero, suc, ◌++◌, ◌==◌, ◌≡◌, ◌≢◌, refl, sym, ap, subst, ◌∙◌, none, some, inl, inr, Option-cases,
  List, [], ◌∷◌, if◌then◌else◌, ℕ_discrete, ==_refl, eq→==, ne→not-==, arith,
}
use mini_raft.Protocol.{Message}
use mini_raft.Network.Registry.{
  HashMap, lookup, keys, remove, insert, update, Channel, channel_send, send_in,
}

-- No key stands twice.
abbrev pub Absent : ℕ → List ℕ → Type 0
Absent k [] = Unit
Absent k (j ∷ js) = (j ≢ k) × Absent k js

abbrev pub IsDistinct : List ℕ → Type 0
IsDistinct [] = Unit
IsDistinct (k ∷ ks) = Absent k ks × IsDistinct ks

-- A channel once a message has been put into it, if its other end is still there.
abbrev pub push_into : ℕ → Message → Channel → Channel
push_into zero msg tx = tx
push_into (suc room) msg tx = record { sent = tx.sent ++ msg ∷ []; room = room }

abbrev pub push : Message → Channel → Channel
push msg tx = push_into tx.room msg tx

abbrev pub push_all : List Message → Channel → Channel
push_all [] tx = tx
push_all (msg ∷ msgs) tx = push_all msgs (push msg tx)

module _ {V : Type 0} where
  pub lookup_past : (k j : ℕ) (v : V) (m : HashMap V) → j ≢ k → lookup k ((j, v) ∷ m) ≡ lookup k m
  lookup_past k j v m ne = ground arith

  pub lookup-update_self :
      (k : ℕ) (w : V) (m : HashMap V) {v : V}
      → lookup k m ≡ some v
      → lookup k (update k w m) ≡ some w
  lookup-update_self k w [] e = cc e
  lookup-update_self k w ((j, v) ∷ m) e = elim (ℕ_discrete j k) [
    | yes same ↦ ground arith
    | no other ↦ ground (arith, lookup-update_self k w m (sym (lookup_past k j v m other) ∙ e))
  ]

  pub lookup-update_other :
      (n k : ℕ) (w : V) (m : HashMap V) → n ≢ k → lookup n (update k w m) ≡ lookup n m
  lookup-update_other n k w [] ne = refl
  lookup-update_other n k w ((j, v) ∷ m) ne = elim (ℕ_discrete j k) [
    | yes same ↦ ground (arith, lookup-update_other n k w m ne)
    | no other ↦ ground (arith, lookup-update_other n k w m ne)
  ]

  pub keys-update : (k : ℕ) (w : V) (m : HashMap V) → keys (update k w m) ≡ keys m
  keys-update k w [] = refl
  keys-update k w ((j, v) ∷ m) = elim (ℕ_discrete j k) [
    | yes same ↦ ground (arith, keys-update k w m)
    | no other ↦ ground (arith, keys-update k w m)
  ]

  pub lookup-Absent : (n : ℕ) (m : HashMap V) → Absent n (keys m) → lookup n m ≡ none
  lookup-Absent n [] a = refl
  lookup-Absent n ((j, v) ∷ m) (ne, a) = ground (arith, lookup-Absent n m a)

push_full : (msg : Message) (tx : Channel) → channel_send msg tx ≡ none → push msg tx ≡ tx
unfolding channel_send
push_full msg tx full = ground arith

push-some :
    (msg : Message) (tx : Channel) {tx₁ : Channel}
    → channel_send msg tx ≡ some tx₁
    → push msg tx ≡ tx₁
unfolding channel_send
push-some msg tx e = ground arith

pub lookup-send_in_self :
    (k : ℕ) (msg : Message) (m : HashMap Channel)
    → lookup k (send_in k msg m).1 ≡ Option.map (push msg) (lookup k m)
unfolding send_in
lookup-send_in_self k msg m = elim (Option-cases (lookup k m)) [
  | inl n ↦ rw (send_in, n) n
  | inr (tx, e) ↦ elim (Option-cases (channel_send msg tx)) [
    | inl full ↦ rw (send_in, e, full) (e ∙ ap some (sym (push_full msg tx full)))
    | inr (tx₁, f) ↦
        rw (send_in, e, f) (lookup-update_self k tx₁ m e ∙ ap some (sym (push-some msg tx f)))
  ]
]

pub lookup-send_in_other :
    (n k : ℕ) (msg : Message) (m : HashMap Channel)
    → n ≢ k
    → lookup n (send_in k msg m).1 ≡ lookup n m
unfolding send_in
lookup-send_in_other n k msg m ne = elim (Option-cases (lookup k m)) [
  | inl e ↦ rw (send_in, e) refl
  | inr (tx, e) ↦ elim (Option-cases (channel_send msg tx)) [
    | inl full ↦ rw (send_in, e, full) refl
    | inr (tx₁, f) ↦ rw (send_in, e, f) (lookup-update_other n k tx₁ m ne)
  ]
]

pub lookup-send_in-none :
    (n k : ℕ) (msg : Message) (m : HashMap Channel)
    → lookup n m ≡ none
    → lookup n (send_in k msg m).1 ≡ none
lookup-send_in-none n k msg m e = elim (ℕ_discrete n k) [
  | yes same ↦
      subst (λ q. lookup n (send_in q msg m).1 ≡ none) same
        (lookup-send_in_self n msg m ∙ ap (Option.map (push msg)) e)
  | no other ↦ lookup-send_in_other n k msg m other ∙ e
]

pub keys-send_in : (k : ℕ) (msg : Message) (m : HashMap Channel) → keys (send_in k msg m).1 ≡ keys m
unfolding send_in
keys-send_in k msg m = elim (Option-cases (lookup k m)) [
  | inl e ↦ rw (send_in, e) refl
  | inr (tx, e) ↦ elim (Option-cases (channel_send msg tx)) [
    | inl full ↦ rw (send_in, e, full) refl
    | inr (tx₁, f) ↦ rw (send_in, e, f) (keys-update k tx₁ m)
  ]
]

pub lookup-send_in :
    (n k : ℕ) (msg : Message) (m : HashMap Channel)
    → lookup n (send_in k msg m).1
      ≡ (if k == n then Option.map (push msg) (lookup n m) else lookup n m)
lookup-send_in n k msg m = elim (ℕ_discrete k n) [
  | yes same ↦ rw (eq→== k n same) (
      subst (λ q. lookup n (send_in q msg m).1 ≡ Option.map (push msg) (lookup n m)) (sym same)
        (lookup-send_in_self n msg m))
  | no other ↦ rw (ne→not-== k n other) (lookup-send_in_other n k msg m (λ e. other (sym e)))
]

module _ {V : Type 0} where
  pub lookup-insert : (k : ℕ) (v : V) (m : HashMap V) → lookup k (insert k v m) ≡ some v
  lookup-insert k v m = rw (==_refl k) refl

  lookup-remove_other : (n k : ℕ) (m : HashMap V) → n ≢ k → lookup n (remove k m) ≡ lookup n m
  lookup-remove_other n k [] ne = refl
  lookup-remove_other n k ((j, v) ∷ m) ne = elim (ℕ_discrete j k) [
    | yes same ↦ ground (arith, lookup-remove_other n k m ne)
    | no other ↦ ground (arith, lookup-remove_other n k m ne)
  ]

  pub lookup-insert_other :
      (n k : ℕ) (v : V) (m : HashMap V) → n ≢ k → lookup n (insert k v m) ≡ lookup n m
  lookup-insert_other n k v m ne =
      lookup_past n k v (remove k m) (λ e. ne (sym e)) ∙ lookup-remove_other n k m ne
