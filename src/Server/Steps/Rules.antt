-- ===== src/Server/Steps/Rules.antt =====
-- Rules for the handlers' monad (src/server.rs): from a server s a call gets to its result by a
-- sequence of writes, and it comes to an end. The rules follow how a call computes.
use mini_raft.Prelude.{
  ap, ◌≡◌, ◌≢◌, refl, Bool, true, false, Option, none, some, if◌then◌else◌, ℕ, zero, suc,
}
use mini_raft.Protocol.{Message, Outgoing}
use mini_raft.Server.State.{Server}
use mini_raft.Server.Action.{
  Outcome, ok, err, fault, unfinished, Error, Action, or_panic, resume, ignore, dropped, send,
  send_to,
}
use mini_raft.Server.Steps.{Steps, then_write, sent, IsOwn}

pub record Runs {S A : Type 0} (Heard : Message → Type 0) (s : Server S) (r : Outcome A × Server S)
    : Type 0 where
  pub steps : Steps Heard s r.1
  pub ends : r.0 ≢ unfinished

dropped-ends : (r : Outcome (Unit {0})) → r ≢ unfinished → dropped r ≢ unfinished
dropped-ends (ok a) h p = cc p
dropped-ends (err e) h p = cc p
dropped-ends fault h p = cc p
dropped-ends unfinished h p = h refl

-- What follows a call that ended well.
pub after_ok :
    {S A B : Type 0} {p : Outcome A × Server S} {a : A} {t : Server S} (f : A → Action S B)
    → p ≡ (ok a, t)
    → resume p.0 f p.1 ≡ f a t
after_ok f e = ap (λ q. resume q.0 f q.1) e

pub ignore_ok :
    {S : Type 0} (m : Action S (Unit {0})) (s t : Server S)
    → m s ≡ (ok tt, t)
    → ignore m s ≡ (ok tt, t)
ignore_ok m s t e = ap (λ q. (dropped q.0, q.1)) e

-- What an operation that panics where it has no value leaves to what follows.
pub given_kept :
    {S A B : Type 0} (P : Server S → Type 0) (o : Option A) (f : A → Action S B) (t : Server S)
    → P t
    → ((a : A) → P (f a t).1)
    → P (resume (or_panic o t).0 f (or_panic o t).1).1
given_kept P none f t p k = p
given_kept P (some a) f t p k = k a

module _ {S : Type 0} {Heard : Message → Type 0} {s : Server S} where
  pub done : {A : Type 0} {a : A} {t : Server S} → Steps Heard s t → Runs Heard s (ok a, t)
  done h = record { steps = h; ends = λ p. cc p }

  pub failed :
      {A : Type 0} {e : Error} {t : Server S} → Steps Heard s t → Runs {A = A} Heard s (err e, t)
  failed h = record { steps = h; ends = λ p. cc p }

  pub panicked : {A : Type 0} {t : Server S} → Steps Heard s t → Runs {A = A} Heard s (fault, t)
  panicked h = record { steps = h; ends = λ p. cc p }

  resumed :
      {A B : Type 0} (r : Outcome A) (f : A → Action S B) (t : Server S)
      → Runs Heard s (r, t)
      → ((a : A) → r ≡ ok a → Steps Heard s t → Runs Heard s (f a t))
      → Runs Heard s (resume r f t)
  resumed (ok a) f t h k = k a refl h.steps
  resumed (err x) f t h k = failed h.steps
  resumed fault f t h k = panicked h.steps
  resumed unfinished f t h k = absurd (h.ends refl)

  -- What follows a call starts where the call ended well.
  pub after :
      {A B : Type 0} {p : Outcome A × Server S} (f : A → Action S B)
      → Runs Heard s p
      → ((a : A) → p.0 ≡ ok a → Steps Heard s p.1 → Runs Heard s (f a p.1))
      → Runs Heard s (resume p.0 f p.1)
  after {p} f h k = resumed p.0 f p.1 (record { steps = h.steps; ends = h.ends }) k

  -- What follows an operation that panics where it has no value.
  pub given :
      {A B : Type 0} (o : Option A) (f : A → Action S B) {t : Server S}
      → Steps Heard s t
      → ((a : A) → o ≡ some a → Runs Heard s (f a t))
      → Runs Heard s (resume (or_panic o t).0 f (or_panic o t).1)
  given none f h k = panicked h
  given (some a) f h k = k a refl

  pub needed :
      {A : Type 0} (o : Option A) {t : Server S} → Steps Heard s t → Runs Heard s (or_panic o t)
  needed none h = panicked h
  needed (some a) h = done h

  pub branch :
      {A : Type 0} (b : Bool) (m k : Action S A) (t : Server S)
      → (b ≡ true → Runs Heard s (m t))
      → (b ≡ false → Runs Heard s (k t))
      → Runs Heard s ((if b then m else k) t)
  branch true m k t h g = h refl
  branch false m k t h g = g refl

  pub ignored :
      {p : Outcome (Unit {0}) × Server S} → Runs Heard s p → Runs Heard s (dropped p.0, p.1)
  ignored {p} h = record { steps = h.steps; ends = dropped-ends p.0 h.ends }

  sends_to :
      (room : ℕ) (o : Outgoing) (t : Server S)
      → Steps Heard s t
      → IsOwn t.current_term t.log o.msg
      → Runs Heard s (send_to room o t)
  unfolding send_to
  sends_to zero o t h w = failed h
  sends_to (suc r) o t h w = done (then_write h (sent o r w))

  pub sends :
      (o : Outgoing) (t : Server S)
      → Steps Heard s t
      → IsOwn t.current_term t.log o.msg
      → Runs Heard s (send o t)
  unfolding send
  sends o t h w = sends_to t.to_network.room o t h w

pub ruleset run_rules = (branch, given, after, needed, done, failed, ignored, sends)
