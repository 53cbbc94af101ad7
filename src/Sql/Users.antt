-- ===== src/Sql/Users.antt =====
-- The users of persistence/sqlite.go.
use lightspeed_chat.Base.{
  Text, Bool, true, false, Option, none, some, List, [], ◌∷◌, Run, returns, ◌>>=◌,
}
use lightspeed_chat.Types.{User, Tags, TagUpdate, zero_user, or_new}
use lightspeed_chat.Filter.{ExprLib}
use lightspeed_chat.Filter.TagUpdates.{update_tags}
use lightspeed_chat.Bunt.{Reply, ok, not_found, other_error, then_ok}
use lightspeed_chat.Sql.{Engine, Scans, at_second}
use lightspeed_chat.Sql.Tables.{UserRow, Statement, put_user, delete_user, set_user_tags}

-- `_, err = p.db.Exec(...); return err`
abbrev pub done_or_error : {W : Type 0} → Bool × W → Reply (Unit {0}) × W
done_or_error (true, db) = (ok tt, db)
done_or_error (false, db) = (other_error, db)

abbrev pub map_reply : {A B : Type 0} → (A → B) → Reply A → Reply B
map_reply f (ok a) = ok (f a)
map_reply f not_found = not_found
map_reply f other_error = other_error

-- The loop over rows that are all scanned: an error of Scan is returned at once.
unfoldable pub read_all : {A B : Type 0} → (A → B) → Scans A → Reply (List B)
read_all read [] = ok []
read_all read (none ∷ scans) = other_error
read_all read (some row ∷ scans) =
    then_ok (read_all read scans) (λ read_rows. ok (read row ∷ read_rows))

-- The rows of `p.db.Query(...)`, none for an error.
unfoldable pub read_query : {A B : Type 0} → (A → B) → Option (Scans A) → Reply (List B)
unfolding read_all
read_query read none = other_error
read_query read (some scans) = read_all read scans

module _ (engine : Engine) where
  open engine use {Db, Tx}

  -- The user that a row stands for, over the caller's.
  unfoldable pub user_of_row : User → UserRow → User
  user_of_row user row = record user {
    nick = row.nick;
    language = row.language;
    last_online = at_second row.last_online;
    tags = engine.unmarshal_tags row.tags;
  }

  abbrev pub row_of_user : User → Text → UserRow
  row_of_user user tags = record {
    nick = user.nick;
    language = user.language;
    last_online = user.last_online.unix;
    tags = tags;
  }

  -- What follows `json.Marshal(user.Tags)`, none for its error.
  abbrev pub store_marshalled : User → Db → Option Text → Reply (Unit {0}) × Db
  store_marshalled user db none = (other_error, db)
  store_marshalled user db (some tags) =
      done_or_error (engine.exec (put_user user.id (row_of_user user tags)) db)

  unfoldable pub store_user : User → Db → Reply (Unit {0}) × Db
  store_user user db = store_marshalled user db (engine.marshal_tags (some (or_new user.tags [])))

  unfoldable pub get_user : User → Db → Reply User
  unfolding user_of_row
  get_user user db = map_reply (user_of_row user) (engine.query_user user.id db)

  abbrev pub listed_user : Text × UserRow → User
  listed_user (id, row) = user_of_row (record zero_user { id = id }) row

  unfoldable pub get_users : Db → Reply (List User)
  unfolding read_query user_of_row
  get_users db = read_query listed_user (engine.query_users db)

  -- The end of a transaction: the error of Commit rolls it back.
  abbrev pub finish : {A : Type 0} → A → Tx → Bool × Db → Reply A × Db
  finish a tx (true, db) = (ok a, db)
  finish a tx (false, db) = (other_error, engine.rollback tx db)

  -- What follows the statement in a transaction, none for its error.
  abbrev pub finish_exec : {A : Type 0} → A → Db → Tx → Option Tx → Reply A × Db
  finish_exec a db tx none = (other_error, engine.rollback tx db)
  finish_exec a db tx (some tx') = finish a tx' (engine.commit tx' db)

  -- What follows `json.Marshal(tags)`, none for its error.
  abbrev pub finish_marshal :
      {A : Type 0} → (Text → Statement) → A → Tx → Db → Option Text → Reply A × Db
  finish_marshal statement a tx db none = (other_error, engine.rollback tx db)
  finish_marshal statement a tx db (some text) =
      finish_exec a db tx (engine.exec_in (statement text) tx)

  -- The tags as a text, the statement that writes it, and the commit.
  unfoldable pub write_tags :
      {A : Type 0} → (Text → Statement) → A → Option Tags → Tx → Db → Reply A × Db
  write_tags statement a tags tx db = finish_marshal statement a tx db (engine.marshal_tags tags)

  -- `tx, err := p.db.BeginTx(...)`, none for an error.
  abbrev pub in_transaction :
      {A : Type 0} → (Tx → Run (Reply A × Db)) → Db → Option Tx → Run (Reply A × Db)
  in_transaction body db none = returns (other_error, db)
  in_transaction body db (some tx) = body tx

  -- What follows the query of the old tags; `put` is the user or room with its new tags.
  abbrev pub retag :
      {A : Type 0} (lib : ExprLib)
      → (Text → Statement)
      → (Option Tags → A)
      → List TagUpdate
      → Tx
      → Db
      → Reply Text
      → Run (Reply (A × List Bool) × Db)
  retag lib statement put updates tx db not_found = returns (not_found, engine.rollback tx db)
  retag lib statement put updates tx db other_error = returns (other_error, engine.rollback tx db)
  retag lib statement put updates tx db (ok text) = do
    (tags, oks) ← update_tags lib (engine.unmarshal_tags text) updates
    returns (write_tags statement (put tags, oks) tags tx db)

  unfoldable pub update_user_tags :
      (lib : ExprLib) → User → List TagUpdate → Db → Run (Reply (User × List Bool) × Db)
  unfolding write_tags
  update_user_tags lib user updates db =
      in_transaction
        (λ tx.
          retag lib (set_user_tags user.id) (λ tags. record user { tags = tags }) updates tx db
            (engine.query_user_tags user.id tx))
        db (engine.begin db)

  unfoldable pub delete_user_row : User → Db → Reply (Unit {0}) × Db
  delete_user_row user db = done_or_error (engine.exec (delete_user user.id) db)
