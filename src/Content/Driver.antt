-- ===== src/Content/Driver.antt =====
-- database/sql over the tables. What the driver and the server do with a call, beyond the meaning of
-- its statement, is a parameter: the error that they report for it, if any, and the server's clock.
pub mod Rules
use flo_mimi.Prelude.{
  ℕ, ◌+◌, Option, none, some, Text, codes, Error, Result, ok, err, Action, wrap, wrapped, pure,
  continue, ◌>>=◌, ◌>>◌,
}
use flo_mimi.Content.Schema.{Tables, Statement}

pub record Driver : Type 0 where
  pub fault : ℕ → Option Error
  pub now : ℕ → ℕ

-- The tables, and the number of the calls made so far.
pub record Session : Type 0 where
  pub tables : Tables
  pub calls : ℕ

module _ (driver : Driver) where
  abbrev pub settle : {A : Type 0} → Result (A × Tables) → Action Session A
  settle (ok (a, t)) s = (ok a, record s { tables = t })
  settle (err e) s = (err e, s)

  -- One call: a call that fails, or whose statement breaks a constraint, changes no table.
  abbrev pub answer : {A : Type 0} → Option Error → (ℕ → Statement A) → Action Session A
  answer (some e) statement s = (err e, record s { calls = s.calls + 1 })
  answer none statement s =
      settle (statement (driver.now s.calls) s.tables) (record s { calls = s.calls + 1 })

  unfoldable pub exec : {A : Type 0} → (ℕ → Statement A) → Action Session A
  exec statement s = answer (driver.fault s.calls) statement s

  -- The tables as they were, after the calls that were made.
  abbrev pub roll_back : Tables → Session → Session
  roll_back before s = record s { tables = before }

  -- tx.Commit
  abbrev pub commit : {A : Type 0} → Tables → A → Option Error → Session → Result A × Session
  commit before a none s = (ok a, record s { calls = s.calls + 1 })
  commit before a (some e) s =
      (err (wrap (codes "commit transaction") e), record { tables = before; calls = s.calls + 1 })

  -- The end of a transaction: a commit, or the deferred rollback on any error.
  abbrev pub finish : {A : Type 0} → Tables → Result A × Session → Result A × Session
  finish before (err e, s) = (err e, roll_back before s)
  finish before (ok a, s) = commit before a (driver.fault s.calls) s

  abbrev pub begin_tx : Action Session (Unit {0})
  begin_tx s = wrapped (codes "begin transaction") (exec (λ _ t. ok (tt, t)) s)

  -- db.BeginTx … tx.Commit around a body that runs on the transaction.
  unfoldable pub transact : {A : Type 0} → Action Session A → Action Session A
  unfolding exec
  transact body s = continue (λ _ s'. finish s'.tables (body s')) (begin_tx s)
