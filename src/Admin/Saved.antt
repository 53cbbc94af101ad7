-- ===== src/Admin/Saved.antt =====
-- What `set room` leaves on SQLite (cmd/lightspeed-chat-admin/main.go with persistence/sqlite.go).
use lightspeed_chat.Base.{
  Text, Bool, true, false, ◌&&◌, not, ◌≡◌, refl, ap, ◌∙◌, Option, none, some, [], returns, ◌>>=◌,
  Safely, Safely-if, Safely-option,
}
use lightspeed_chat.Strings.{is_empty}
use lightspeed_chat.Types.{User, Room, or_new}
use lightspeed_chat.Bunt.{Reply, ok, not_found, other_error}
use lightspeed_chat.Sql.{Engine}
use lightspeed_chat.Sql.Tables.{UserRow, put_room, apply}
use lightspeed_chat.Sql.Behaviour.{IsSql}
use lightspeed_chat.Sql.Users.{done_or_error, map_reply, user_of_row}
use lightspeed_chat.Sql.Users
use lightspeed_chat.Sql.Rooms
use lightspeed_chat.Admin.{
  AdminStore, AdminJson, Outcome, prints, done, logs, end_of, definition, or_zero_user, save_room,
  save_with, save_decoded, set_room,
}

abbrev pub sql_store : (engine : Engine) → AdminStore engine.Db
sql_store engine = record {
  get_rooms = Rooms.get_rooms engine;
  get_room = Rooms.get_room engine;
  get_users = Users.get_users engine;
  get_user = Users.get_user engine;
  delete_room = Rooms.delete_room_row engine;
  delete_user = Users.delete_user_row engine;
  store_room = Rooms.store_room engine;
  store_user = Users.store_user engine;
}

module _ (engine : Engine) (sql : IsSql engine) (json : AdminJson) where
  open engine use {Db}
  open sql use {enforced, tables}

  -- Done, and the row of the room holds its tags and the identity of its owner, if it has one; or an
  -- error was logged, and nothing has changed.
  abbrev pub IsSaved : Text → Db → Outcome × Db → Type 0
  IsSaved text db (done, db') =
      (room : Room) × (tags : Text) × (json.decode_room text ≡ some room)
      × (is_empty room.id ≡ false)
      × (engine.marshal_tags (some (or_new room.tags [])) ≡ some tags)
      × (tables db'
          ≡ apply enforced
              (put_room room.id (record { owner_id = (or_zero_user room.owner).id; tags = tags }))
              (tables db))
  IsSaved text db (logs, db') = tables db' ≡ tables db
  IsSaved text db (prints t, db') = ⊥

  written-IsSaved :
      (text : Text) (room : Room) (tags id : Text) (db : Db) (end : Bool × Db)
      → json.decode_room text ≡ some room
      → is_empty room.id ≡ false
      → engine.marshal_tags (some (or_new room.tags [])) ≡ some tags
      → id ≡ (or_zero_user room.owner).id
      → engine.exec (put_room room.id (record { owner_id = id; tags = tags })) db ≡ end
      → IsSaved text db (end_of (done_or_error end))
  written-IsSaved text room tags id db (false, db') read named made same e =
      sql.exec-failed (put_room room.id (record { owner_id = id; tags = tags })) db db' e
  written-IsSaved text room tags id db (true, db') read named made same e = (
    room,
    tags,
    read,
    named,
    made,
    sql.exec-done (put_room room.id (record { owner_id = id; tags = tags })) db db' e
        ∙ ap
            (λ i.
              apply enforced (put_room room.id (record { owner_id = i; tags = tags })) (tables db))
            same,
  )

  save_room-IsSaved :
      (text : Text) (room : Room) (owner : User) (db : Db)
      → json.decode_room text ≡ some room
      → is_empty room.id ≡ false
      → owner.id ≡ (or_zero_user room.owner).id
      → Safely (IsSaved text db) (save_room (sql_store engine) json room owner db)
  unfolding Rooms.store_room
  save_room-IsSaved text room owner db read named same =
      go (engine.marshal_tags (some (or_new room.tags []))) refl
    where
      go :
          (o : Option Text)
          → engine.marshal_tags (some (or_new room.tags [])) ≡ o
          → Safely (IsSaved text db) (
              Rooms.store_marshalled_room engine (record room { owner = some owner }) db o
              >>= λ stored. returns (end_of stored))
      go none made = refl
      go (some tags) made =
          written-IsSaved text room tags owner.id db
            (engine.exec (put_room room.id (record { owner_id = owner.id; tags = tags })) db) read
            named made same refl

  save_with-IsSaved :
      (text : Text) (room : Room) (db : Db) (reply : Reply UserRow)
      → json.decode_room text ≡ some room
      → is_empty room.id ≡ false
      → Safely (IsSaved text db) (
          save_with
            (sql_store engine)
            json
            room
            db
            (map_reply (user_of_row engine (or_zero_user room.owner)) reply))
  unfolding user_of_row
  save_with-IsSaved text room db (ok row) read named =
      save_room-IsSaved text room (user_of_row engine (or_zero_user room.owner) row) db read named
        refl
  save_with-IsSaved text room db not_found read named = refl
  save_with-IsSaved text room db other_error read named = refl

  save_decoded-IsSaved :
      (text : Text) (room : Room) (db : Db)
      → json.decode_room text ≡ some room
      → Safely (IsSaved text db) (save_decoded (sql_store engine) json room db)
  unfolding save_decoded Users.get_user
  save_decoded-IsSaved text room db read =
      Safely-if (IsSaved text db) (is_empty room.id) _ _ (λ _. refl)
        λ named.
          Safely-if (IsSaved text db)
            (not (is_empty (or_zero_user room.owner).id) && is_empty (or_zero_user room.owner).nick)
            _ _
            (λ _.
              save_with-IsSaved text room db (engine.query_user (or_zero_user room.owner).id db)
                read named)
            (λ _. save_room-IsSaved text room (or_zero_user room.owner) db read named refl)

  -- On SQLite, `set room` ends without a panic. If it logs no error, the definition has an
  -- identity, and under it the table holds the tags and the owner's identity as they are defined, and
  -- nothing else changes; if it logs one, nothing changes.
  pub set_room-IsSaved :
      (stdin arg : Text) (db : Db)
      → Safely (IsSaved (definition stdin arg) db) (set_room (sql_store engine) json stdin arg db)
  unfolding set_room
  set_room-IsSaved stdin arg db =
      Safely-option (IsSaved (definition stdin arg) db) (json.decode_room (definition stdin arg)) _
        _ (λ _. refl) (λ room read. save_decoded-IsSaved (definition stdin arg) room db read)
