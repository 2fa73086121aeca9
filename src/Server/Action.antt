-- ===== src/Server/Action.antt =====
-- The handlers' monad: the server as state, and how a call ends. What a handler wrote stays written
-- when it fails.
use mini_raft.Prelude.{ℕ, zero, suc, Option, none, some, [], ◌∷◌, ◌++◌}
use mini_raft.Protocol.{Outgoing}
use mini_raft.Server.State.{Server, ServerState}

-- The `anyhow` errors that the handlers raise.
pub data Error : Type 0 where
  expected_append_entries channel_closed send_failed apply_failed : Error

-- `fault` is a panic. `unfinished` is no end at all: a loop of the model that used up its fuel.
pub data Outcome (A : Type 0) : Type 0 where
  ok : A → Outcome A
  err : Error → Outcome A
  fault : Outcome A
  unfinished : Outcome A

abbrev pub Action : Type 0 → Type 0 → Type 0
Action S A = Server S → Outcome A × Server S

module _ {S A : Type 0} where
  abbrev pub pure : A → Action S A
  pure a s = (ok a, s)

  abbrev pub raise : Error → Action S A
  raise e s = (err e, s)

  abbrev pub panic : Action S A
  panic s = (fault, s)

  abbrev pub stuck : Action S A
  stuck s = (unfinished, s)

  -- An operation that panics where it has no value.
  abbrev pub or_panic : Option A → Action S A
  or_panic none s = (fault, s)
  or_panic (some a) s = (ok a, s)

-- What follows an action that ended with `r` in state `s`.
abbrev pub resume : {S A B : Type 0} → Outcome A → (A → Action S B) → Action S B
resume (ok a) f s = f a s
resume (err e) f s = (err e, s)
resume fault f s = (fault, s)
resume unfinished f s = (unfinished, s)

infixl 5 ◌>>=◌ ◌>>◌
abbrev pub ◌>>=◌ : {S A B : Type 0} → Action S A → (A → Action S B) → Action S B
◌>>=◌ m f s = let (r, s') = m s in resume r f s'

abbrev pub ◌>>◌ : {S A B : Type 0} → Action S A → Action S B → Action S B
m >> k = m >>= λ _. k

-- `_ = m`: an error is dropped, a panic is not.
abbrev pub dropped : Outcome (Unit {0}) → Outcome (Unit {0})
dropped (err e) = ok tt
dropped r = r

module _ {S : Type 0} where
  abbrev pub ignore : Action S (Unit {0}) → Action S (Unit {0})
  ignore m s = let (r, s') = m s in (dropped r, s')

  abbrev pub self : Action S (Server S)
  self s = (ok s, s)

  abbrev pub modify : (Server S → Server S) → Action S (Unit {0})
  modify f s = (ok tt, f s)

  abbrev pub modify_state : (ServerState S → ServerState S) → Action S (Unit {0})
  modify_state f s = (ok tt, record s { inner = f s.inner })

  unfoldable pub send_to : ℕ → Outgoing → Action S (Unit {0})
  send_to zero o s = (err Error.send_failed, s)
  send_to (suc room) o s =
      (ok tt, record s { to_network = record { sent = s.to_network.sent ++ o ∷ []; room = room } })

  -- `self.to_network.send(o).await`.
  unfoldable pub send : Outgoing → Action S (Unit {0})
  unfolding send_to
  send o s = send_to s.to_network.room o s
