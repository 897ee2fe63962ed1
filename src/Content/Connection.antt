-- ===== src/Content/Connection.antt =====
-- `NewAppDBRepository` and `Close`: the connection to the database, as the calls that are made on it.
use flo_mimi.Prelude.{[], ◌∷◌, List, Option, none, some, Text, codes, Error, Result, ok, err, wrap}

-- The calls of database/sql that open, ping and close a connection.
pub data Call : Type 0 where
  opened : Text → Call
  pinged : Call
  closed : Call

-- The errors that the calls report, if any: of opening a data source, of a ping and of closing.
pub record Sql : Type 0 where
  pub open_error : Text → Option Error
  pub ping_error : Option Error
  pub close_error : Option Error

-- The repository keeps its connection and its environment.
pub record AppDbRepository : Type 0 where
  pub db : Option Text
  pub environment : Text

unfoldable pub new_app_db_repository : Sql → Text → Text → Result AppDbRepository × List Call
new_app_db_repository sql dsn environment = elim (sql.open_error dsn) [
  | some e ↦ (err (wrap (codes "open appdb connection") e), [])
  | none ↦ elim sql.ping_error [
    | some e ↦ (err (wrap (codes "ping appdb") e), opened dsn ∷ pinged ∷ closed ∷ [])
    | none ↦ (ok (record { db = some dsn; environment = environment }), opened dsn ∷ pinged ∷ [])
  ]
]

-- `Close`, whose receiver may be nil or have no connection.
unfoldable pub close_db : Sql → Option AppDbRepository → Option Error × List Call
close_db sql none = (none, [])
close_db sql (some r) = elim r.db [ none ↦ (none, []) | some dsn ↦ (sql.close_error, closed ∷ []) ]
