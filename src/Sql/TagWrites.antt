-- ===== src/Sql/TagWrites.antt =====
-- UpdateUserTags and UpdateRoomTags of persistence/sqlite.go are atomic, and write what UpdateTags makes
-- of the stored tags.
use lightspeed_chat.Base.{
  Text, Bool, ◌≡◌, refl, sym, ap, ◌∙◌, Option, none, some, List, returns, Ensures, Ensures-bind_eq,
  Ensures-if, Ensures-imp, inl, inr, lookup,
}
use mathlib.Core.Option
use lightspeed_chat.Strings.{is_empty}
use lightspeed_chat.Types.{User, Room, Tags, TagUpdate}
use lightspeed_chat.Filter.{ExprLib}
use lightspeed_chat.Filter.TagUpdates.{update_tags}
use lightspeed_chat.Filter.TagUpdates.Update.{update_tags-Updated}
use lightspeed_chat.Bunt.{Reply, ok, not_found, other_error}
use lightspeed_chat.Sql.{Engine}
use lightspeed_chat.Sql.Tables.{UserRow, RoomRow, Statement, set_user_tags, set_room_tags, apply}
use lightspeed_chat.Sql.Behaviour.{IsSql, Answers, tags_of_user, tags_of_room}
use lightspeed_chat.Sql.Transactions.{finish-cases, in_transaction-Ensures}
use lightspeed_chat.Sql.Users.{retag, write_tags, finish_exec, finish_marshal, update_user_tags}
use lightspeed_chat.Sql.Rooms.{update_room_tags}

module _ (engine : Engine) (sql : IsSql engine) where
  open engine use {Db, Tx}
  open sql use {enforced, tables, tables_in}

  -- What a transaction that ends in the writing of tags has done: one statement or nothing.
  abbrev Written : {A : Type 0} → (Text → Statement) → A → Option Tags → Db → Reply A × Db → Type 0
  Written statement a tags db (ok b, db') =
      (b ≡ a)
      × (text : Text) × (engine.marshal_tags tags ≡ some text)
      × (tables db' ≡ apply enforced (statement text) (tables db))
  Written statement a tags db (not_found, db') = tables db' ≡ tables db
  Written statement a tags db (other_error, db') = tables db' ≡ tables db

  finish_exec-Written :
      {A : Type 0} (statement : Text → Statement) (a : A) (tags : Option Tags) (text : Text)
      (tx : Tx) (db : Db)
      → engine.marshal_tags tags ≡ some text
      → tables_in tx ≡ tables db
      → (o : Option Tx) → engine.exec_in (statement text) tx ≡ o
      → Written statement a tags db (finish_exec engine a db tx o)
  finish_exec-Written statement a tags text tx db made started none e = sql.rollback-tables tx db
  finish_exec-Written statement a tags text tx db made started (some tx') e =
      finish-cases engine sql (Written statement a tags db) a tx' db
        (λ db' kept. (
          refl,
          text,
          made,
          kept
              ∙ sql.exec_in-done (statement text) tx tx' e
              ∙ ap (apply enforced (statement text)) started,
        ))
        (λ db' kept. kept)

  finish_marshal-Written :
      {A : Type 0} (statement : Text → Statement) (a : A) (tags : Option Tags) (tx : Tx) (db : Db)
      → tables_in tx ≡ tables db
      → (o : Option Text) → engine.marshal_tags tags ≡ o
      → Written statement a tags db (finish_marshal engine statement a tx db o)
  finish_marshal-Written statement a tags tx db started none e = sql.rollback-tables tx db
  finish_marshal-Written statement a tags tx db started (some text) e =
      finish_exec-Written statement a tags text tx db e started (engine.exec_in (statement text) tx)
        refl

  write_tags-Written :
      {A : Type 0} (statement : Text → Statement) (a : A) (tags : Option Tags) (tx : Tx) (db : Db)
      → tables_in tx ≡ tables db
      → Written statement a tags db (write_tags engine statement a tags tx db)
  unfolding write_tags
  write_tags-Written statement a tags tx db started =
      finish_marshal-Written statement a tags tx db started (engine.marshal_tags tags) refl

  -- What was done of a change of tags; `stored` says which text the stored tags are.
  abbrev pub Retagged :
      {A : Type 0} (lib : ExprLib)
      → (Text → Type 0)
      → (Text → Statement)
      → (Option Tags → A)
      → List TagUpdate
      → Db
      → Reply (A × List Bool) × Db
      → Type 0
  Retagged lib stored statement put updates db (ok (a, oks), db') =
      (old : Text) × (tags : Option Tags) × (new : Text) × stored old
      × (update_tags lib (engine.unmarshal_tags old) updates ≡ returns (tags, oks))
      × (a ≡ put tags)
      × (engine.marshal_tags tags ≡ some new)
      × (tables db' ≡ apply enforced (statement new) (tables db))
  Retagged lib stored statement put updates db (not_found, db') = tables db' ≡ tables db
  Retagged lib stored statement put updates db (other_error, db') = tables db' ≡ tables db

  Retagged-Written :
      {A : Type 0} (lib : ExprLib) (stored : Text → Type 0) (statement : Text → Statement)
      (put : Option Tags → A) (updates : List TagUpdate) (old : Text) (db : Db) (tags : Option Tags)
      (oks : List Bool)
      → stored old
      → update_tags lib (engine.unmarshal_tags old) updates ≡ returns (tags, oks)
      → (end : Reply (A × List Bool) × Db) → Written statement (put tags, oks) tags db end
      → Retagged lib stored statement put updates db end
  Retagged-Written {A} lib stored statement put updates old db tags oks was made (ok (a, bs), db')
        (same, new, text, done) =
      (
        old,
        tags,
        new,
        was,
        made ∙ ap (λ (p : A × List Bool). returns (tags, p.1)) (sym same),
        ap (λ (p : A × List Bool). p.0) same,
        text,
        done,
      )
  Retagged-Written lib stored statement put updates old db tags oks was made (not_found, db') w = w
  Retagged-Written lib stored statement put updates old db tags oks was made (other_error, db') w =
      w

  retag-Retagged :
      {A : Type 0} (lib : ExprLib) (stored : Text → Type 0) (statement : Text → Statement)
      (put : Option Tags → A) (updates : List TagUpdate) (tx : Tx) (db : Db) (reply : Reply Text)
      → ((old : Text) → reply ≡ ok old → stored old)
      → tables_in tx ≡ tables db
      → Ensures
          (Retagged lib stored statement put updates db)
          (retag engine lib statement put updates tx db reply)
  retag-Retagged lib stored statement put updates tx db not_found known started =
      sql.rollback-tables tx db
  retag-Retagged lib stored statement put updates tx db other_error known started =
      sql.rollback-tables tx db
  retag-Retagged {A} lib stored statement put updates tx db (ok old) known started =
      Ensures-bind_eq (Retagged lib stored statement put updates db)
        (update_tags lib (engine.unmarshal_tags old) updates) _
        (Ensures-imp _ _ _ (update_tags-Updated lib updates (engine.unmarshal_tags old))
          (λ _ _. tt))
        λ made e.
          Retagged-Written lib stored statement put updates old db made.0 made.1 (known old refl) e
            (write_tags engine statement (put made.0, made.1) made.0 tx db)
            (write_tags-Written statement (put made.0, made.1) made.0 tx db started)

  known_text :
      {V : Type 0} (f : V → Text) (text : Text) (o : Option V)
      → Answers (Option.map f o) (ok text)
      → (row : V) × (o ≡ some row) × (text ≡ f row)
  known_text f text none (inl h) = cc h
  known_text f text none (inr h) = cc h
  known_text f text (some row) (inl h) = (row, refl, cc h)
  known_text f text (some row) (inr h) = cc h

  abbrev pub TagsOfUser : User → Db → Text → Type 0
  TagsOfUser user db old =
      (row : UserRow) × (lookup user.id (tables db).users ≡ some row) × (old ≡ row.tags)

  known_user :
      (user : User) (db : Db) (tx : Tx) (old : Text)
      → tables_in tx ≡ tables db
      → engine.query_user_tags user.id tx ≡ ok old
      → TagsOfUser user db old
  known_user user db tx old started e =
      known_text tags_of_user old (lookup user.id (tables db).users)
        (rw (← started, ← e) (sql.query_user_tags-Answers user.id tx))

  abbrev pub TagsOfRoom : Room → Db → Text → Type 0
  TagsOfRoom room db old =
      (row : RoomRow) × (lookup room.id (tables db).rooms ≡ some row) × (old ≡ row.tags)

  known_room :
      (room : Room) (db : Db) (tx : Tx) (old : Text)
      → tables_in tx ≡ tables db
      → engine.query_room_tags room.id tx ≡ ok old
      → TagsOfRoom room db old
  known_room room db tx old started e =
      known_text tags_of_room old (lookup room.id (tables db).rooms)
        (rw (← started, ← e) (sql.query_room_tags-Answers room.id tx))

  abbrev pub TagsRoom :
      ExprLib → Room → List TagUpdate → Db → Reply (Room × List Bool) × Db → Type 0
  TagsRoom lib room updates db =
      Retagged lib (TagsOfRoom room db) (set_room_tags room.id)
        (λ tags. record room { tags = tags }) updates db

  -- UpdateUserTags succeeds and gives the row of the user the tags that UpdateTags makes of it, or
  -- leaves the tables as they are.
  abbrev pub TagsUser :
      ExprLib → User → List TagUpdate → Db → Reply (User × List Bool) × Db → Type 0
  TagsUser lib user updates db =
      Retagged lib (TagsOfUser user db) (set_user_tags user.id)
        (λ tags. record user { tags = tags }) updates db

  -- On SQLite, UpdateUserTags succeeds, and then the row of the user has the text of the tags that
  -- UpdateTags makes of the ones in it, which are also the tags of the user that is returned with
  -- the reports, and nothing else changes; or it returns an error, and the tables are as before;
  -- or UpdateTags panics.
  pub update_user_tags-TagsUser :
      (lib : ExprLib) (user : User) (updates : List TagUpdate) (db : Db)
      → Ensures (TagsUser lib user updates db) (update_user_tags engine lib user updates db)
  unfolding update_user_tags
  update_user_tags-TagsUser lib user updates db =
      in_transaction-Ensures engine sql (TagsUser lib user updates db) _ db refl λ tx started.
        retag-Retagged lib (TagsOfUser user db) (set_user_tags user.id) _ updates tx db
          (engine.query_user_tags user.id tx) (λ old e. known_user user db tx old started e) started

  -- The same of UpdateRoomTags and the row of the room.
  pub update_room_tags-TagsRoom :
      (lib : ExprLib) (room : Room) (updates : List TagUpdate) (db : Db)
      → Ensures (TagsRoom lib room updates db) (update_room_tags engine lib room updates db)
  unfolding update_room_tags
  update_room_tags-TagsRoom lib room updates db =
      Ensures-if (TagsRoom lib room updates db) (is_empty room.id) _ _ (λ _. refl)
        λ _.
          in_transaction-Ensures engine sql (TagsRoom lib room updates db) _ db refl λ tx started.
            retag-Retagged lib (TagsOfRoom room db) (set_room_tags room.id) _ updates tx db
              (engine.query_room_tags room.id tx) (λ old e. known_room room db tx old started e)
              started
