-- ===== src/Postgres.antt =====
-- internal/postgres/client.go: clients, their transactions, and the repositories that clients share.
pub mod Users
pub mod Records
pub mod Transactions
pub mod SecondFactor
pub mod Creation
use authenticator.Common.{
  ℕ, suc, ◌==◌, Bool, true, false, Option, none, some, List, Text, if◌then◌else◌,
}
use authenticator.Errors.{Err, other, wrap}
use authenticator.Effect.{
  Exec, Outcome, ok, fail, panic, Result, good, bad, pure, raise, crash, attempt, guard, wrapped,
  ◌>>=◌, ◌>>◌,
}
use authenticator.Domain.{User, Device, LoginHistory}
use authenticator.Repository.{Entity}

-- The queries of `createQueries` that return a row, with their arguments.
pub data UserQuery : Type 0 where
  users_by_phone users_by_email users_by_id users_for_update : Text → UserQuery

pub data DeviceQuery : Type 0 where
  devices_by_id devices_for_update : Text → DeviceQuery
  devices_by_client_id : Text → Text → DeviceQuery

pub data LoginQuery : Type 0 where
  logins_by_token_id logins_for_update : Text → LoginQuery

-- `database/sql` with the Postgres driver. A statement runs in a transaction or in none; a
-- transaction is a handle. An insertion returns the row's times, and the others the number of rows.
pub record Database (W : Type 0) : Type 0 where
  pub begin_tx : Exec W ℕ
  pub rollback : ℕ → Exec W (Unit {0})
  pub commit : ℕ → Exec W (Unit {0})
  pub query_user : Option ℕ → UserQuery → Exec W User
  pub insert_user : Option ℕ → User → Exec W (ℕ × ℕ)
  -- The row's old ID, then its new contents.
  pub update_user : Option ℕ → Text → User → Exec W ℕ
  pub query_device : Option ℕ → DeviceQuery → Exec W Device
  pub query_devices : Option ℕ → Text → Exec W (List Device)
  pub insert_device : Option ℕ → Device → Exec W (ℕ × ℕ)
  pub update_device : Option ℕ → Device → Exec W ℕ
  pub delete_device : Option ℕ → Text → Text → Exec W ℕ
  pub query_login : Option ℕ → LoginQuery → Exec W LoginHistory
  pub insert_login : Option ℕ → LoginHistory → Exec W (ℕ × ℕ)
  pub update_login : Option ℕ → LoginHistory → Exec W ℕ

-- The clients that exist, each with its field `tx`, and the client that the repositories point to:
-- a copy of a client shares the repositories of the original.
pub record Heap : Type 0 where
  pub next : ℕ
  pub txs : ℕ → Option ℕ
  pub current : ℕ

abbrev pub State : Type 0 → Type 0
State W = W × Heap

abbrev pub put_at : ℕ → Option ℕ → (ℕ → Option ℕ) → ℕ → Option ℕ
put_at k tx txs j = if j == k then tx else txs j

abbrev pub is_open : Option ℕ → Bool
is_open none = false
is_open (some tx) = true

abbrev pub rollback_error : Result (Unit {0}) → Err → Err
rollback_error (good u) e = e
rollback_error (bad db_err) e = wrap "%v" e

module _ {W : Type 0} where
  abbrev lift_outcome : {A : Type 0} → Heap → Outcome W A → Outcome (State W) A
  lift_outcome h (ok a w) = ok a (w, h)
  lift_outcome h (fail e w) = fail e (w, h)
  lift_outcome h (panic w) = panic (w, h)

  -- What the database does leaves the clients alone.
  unfoldable pub lift : {A : Type 0} → Exec W A → Exec (State W) A
  lift m d = lift_outcome d.1 (m d.0)

  abbrev pub tx_of : ℕ → Exec (State W) (Option ℕ)
  tx_of c d = ok (d.1.txs c) d

  -- `c.tx != nil` decides where a statement runs, for the client that the repositories point to.
  unfoldable pub in_tx : {A : Type 0} → (Option ℕ → Exec W A) → Exec (State W) A
  in_tx statement d = lift (statement (d.1.txs d.1.current)) d

  -- `newClient := *c`, its transaction, and the repositories that now point to it.
  abbrev pub allocate : ℕ → Exec (State W) ℕ
  allocate tx d = ok d.1.next (
    d.0,
    record { next = suc d.1.next; txs = put_at d.1.next (some tx) d.1.txs; current = d.1.next },
  )

  -- `c.tx = nil`.
  abbrev pub forget : ℕ → State W → State W
  forget c d = (d.0, record d.1 { txs = put_at c none d.1.txs })

  -- A deferred function runs whatever happened.
  abbrev pub forgetting : {A : Type 0} → ℕ → Outcome (State W) A → Outcome (State W) A
  forgetting c (ok a d) = ok a (forget c d)
  forgetting c (fail e d) = fail e (forget c d)
  forgetting c (panic d) = panic (forget c d)

  -- A method of a nil transaction panics.
  abbrev pub tx_or_crash : Option ℕ → Exec (State W) ℕ
  tx_or_crash none = crash
  tx_or_crash (some tx) = pure tx

  module _ (db : Database W) where
    unfoldable pub new_with_transaction : ℕ → Exec (State W) ℕ
    new_with_transaction c = lift db.begin_tx >>= allocate

    unfoldable pub commit_client : ℕ → Entity → Exec (State W) Entity
    commit_client c entity = do
      open_tx ← tx_of c
      tx ← tx_or_crash open_tx
      wrapped "commit failed" (lift (db.commit tx))
      pure entity

    unfoldable pub rollback_client : ℕ → Err → Exec (State W) Entity
    rollback_client c e = do
      open_tx ← tx_of c
      tx ← tx_or_crash open_tx
      r ← attempt (lift (db.rollback tx))
      raise (rollback_error r e)

    unfoldable pub finish : ℕ → Outcome (State W) Entity → Outcome (State W) Entity
    finish c (ok entity d) = commit_client c entity d
    finish c (fail e d) = rollback_client c e d
    finish c (panic d) = panic d

    unfoldable pub with_atomic : ℕ → Exec (State W) Entity → Exec (State W) Entity
    with_atomic c operation d =
        if is_open (d.1.txs c)
        then forgetting c (finish c (operation d))
        else fail (other "cannot complete operation outside of transaction") d
