-- ===== src/Sql/Setup.antt =====
-- The opening of the database of persistence/sqlite.go (NewSQLitePersister, setupSQLiteDB). sql.Open and
-- Exec of the statements that create the tables are parameters.
use lightspeed_chat.Base.{Text, Option, none, some, List, [], ◌∷◌, if◌then◌else◌}
use lightspeed_chat.Strings.{is_empty}
use lightspeed_chat.Bunt.{Reply, ok, not_found, other_error}

-- The statements of setupSQLiteDB; each leaves what is there already.
pub data Creation : Type 0 where
  users_table rooms_table events_table events_index : Creation

-- `SQLitePersist`, with the path of the lock file, if there is one.
pub record SqlitePersist (Db : Type 0) : Type 0 where
  pub db : Db
  pub flock : Option Text

-- The part of PersistenceConfig that is read.
pub record SqliteConfig : Type 0 where
  pub dsn : Text
  pub flock_path : Text

module _ {Db : Type 0} (open_db : Text → Option Db) (exec : Creation → Db → Option Db) where
  -- The statements in their order, up to the first error.
  unfoldable pub create_all : List Creation → Db → Option Db
  create_all [] db = some db
  create_all (c ∷ cs) db = elim (exec c db) [ none ↦ none | some db' ↦ create_all cs db' ]

  unfoldable pub set_up : Text → Reply (Option Db)
  unfolding create_all
  set_up dsn = if is_empty dsn then ok none else elim (open_db dsn) [
    | none ↦ other_error
    | some db ↦
        elim (create_all (users_table ∷ rooms_table ∷ events_table ∷ events_index ∷ []) db) [
          | none ↦ other_error
          | some db' ↦ ok (some db')
        ]
  ]

  abbrev pub with_flock : Text → Reply (Option Db) → Reply (Option (SqlitePersist Db))
  with_flock path (ok (some db)) =
      ok (some (record { db = db; flock = if is_empty path then none else some path }))
  with_flock path (ok none) = ok none
  with_flock path not_found = not_found
  with_flock path other_error = other_error

  -- `NewSQLitePersister`: nil without a data source name.
  unfoldable pub new_sqlite_persister : SqliteConfig → Reply (Option (SqlitePersist Db))
  unfolding set_up
  new_sqlite_persister cfg = with_flock cfg.flock_path (set_up cfg.dsn)
