-- ===== src/Sql/Transactions.antt =====
-- How a transaction of persistence/sqlite.go ends: committed, or with the tables as they were.
use lightspeed_chat.Base.{Bool, true, false, ◌≡◌, refl, ◌∙◌, Option, none, some, Run, Ensures}
use lightspeed_chat.Bunt.{Reply, ok, other_error}
use lightspeed_chat.Sql.{Engine}
use lightspeed_chat.Sql.Behaviour.{IsSql}
use lightspeed_chat.Sql.Users.{finish, in_transaction}

module _ (engine : Engine) (sql : IsSql engine) where
  open engine use {Db, Tx}
  open sql use {tables, tables_in}

  pub finish-cases :
      {A : Type 0} (P : Reply A × Db → Type 0) (a : A) (tx : Tx) (db : Db)
      → ((db' : Db) → tables db' ≡ tables_in tx → P (ok a, db'))
      → ((db' : Db) → tables db' ≡ tables db → P (other_error, db'))
      → P (finish engine a tx (engine.commit tx db))
  finish-cases {A} P a tx db committed failed = go (engine.commit tx db) refl
    where
      go : (end : Bool × Db) → engine.commit tx db ≡ end → P (finish engine a tx end)
      go (true, db') e = committed db' (sql.commit-done tx db db' e)
      go (false, db') e =
          failed (engine.rollback tx db')
            (sql.rollback-tables tx db' ∙ sql.commit-failed tx db db' e)

  pub in_transaction-Ensures :
      {A : Type 0} (P : Reply A × Db → Type 0) (body : Tx → Run (Reply A × Db)) (db : Db)
      → P (other_error, db)
      → ((tx : Tx) → tables_in tx ≡ tables db → Ensures P (body tx))
      → Ensures P (in_transaction engine body db (engine.begin db))
  in_transaction-Ensures P body db failed runs = go (engine.begin db) refl
    where
      go : (o : Option Tx) → engine.begin db ≡ o → Ensures P (in_transaction engine body db o)
      go none e = failed
      go (some tx) e = runs tx (sql.begin-tables db tx e)
