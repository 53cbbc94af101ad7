-- ===== src/Startup/Kept.antt =====
-- What the first start of the server on SQLite leaves for the next one (main of
-- cmd/lightspeed-chat/main.go with persistence/sqlite.go).
use lightspeed_chat.Base.{
  Text, codes, Bool, true, false, ◌≡◌, refl, sym, ap, ◌∙◌, subst, inl, inr, Option, none, some,
  List, [], ◌∷◌, lookup, lookup-insert, text_eq, text_eq_refl, ◌>>=◌, Ensures, Ensures-bind,
}
use lightspeed_chat.Strconv.{parse_bool}
use lightspeed_chat.Types.{User, Room, zero_user}
use lightspeed_chat.Bunt.{Reply, ok, not_found, other_error}
use lightspeed_chat.Sql.{Engine}
use lightspeed_chat.Sql.Tables.{
  UserRow, RoomRow, Database, put_room, apply, select_room, joined_room,
}
use lightspeed_chat.Sql.Behaviour.{IsSql, Answers}
use lightspeed_chat.Sql.ReadBack.{store_user-inversion, lookup-put_user}
use lightspeed_chat.Sql.Users.{done_or_error, map_reply, user_of_row, row_of_user}
use lightspeed_chat.Sql.Users
use lightspeed_chat.Sql.Rooms
use lightspeed_chat.Session.{allows_guests}
use lightspeed_chat.Startup.{
  RoomStore, new_admin, default_room, or_panic, find_admin, create_room, rooms_or_default,
  start_rooms,
}

abbrev pub sql_store : (engine : Engine) → RoomStore engine.Db
sql_store engine = record {
  get_rooms = Rooms.get_rooms engine;
  get_user = Users.get_user engine;
  store_user = Users.store_user engine;
  store_room = Rooms.store_room engine;
}

select-joined :
    (id : Text) (room : RoomRow) (row : UserRow) (t : Database)
    → lookup id t.rooms ≡ some room
    → lookup room.owner_id t.users ≡ some row
    → select_room id t ≡ some (room, row)
unfolding select_room
select-joined id room row t stored owned = rw (select_room, stored, joined_room, owned) refl

lookup-put_room :
    (enforced : Bool) (id : Text) (room : RoomRow) (row : UserRow) (t : Database)
    → lookup room.owner_id t.users ≡ some row
    → select_room id (apply enforced (put_room id room) t) ≡ some (room, row)
unfolding apply
lookup-put_room enforced id room row t owned =
    select-joined id room row (apply enforced (put_room id room) t)
      (lookup-insert id id room t.rooms ∙ rw (text_eq_refl id) refl) owned

module _ (engine : Engine) (sql : IsSql engine) (admin : Text) where
  open engine use {Db}
  open sql use {enforced, tables}

  -- The admin has a row.
  abbrev HasRow : User × Db → Type 0
  HasRow (user, db) =
      (user.id ≡ admin) × (row : UserRow) × (lookup admin (tables db).users ≡ some row)

  -- The default room is the only one, the admin owns it, it allows guests, and its row, with its tags
  -- marshalled, is found with that of the admin.
  abbrev pub IsKept : List Room × Db → Type 0
  IsKept (rooms, db) =
      (owner : User) × (default : Room) × (room : RoomRow) × (row : UserRow) × (rooms
        ≡ default ∷ [])
      × (default.id ≡ codes "default")
      × (default.owner ≡ some owner)
      × (owner.id ≡ admin)
      × (allows_guests default.tags ≡ true)
      × (engine.marshal_tags default.tags ≡ some room.tags)
      × (room.owner_id ≡ admin)
      × (select_room (codes "default") (tables db) ≡ some (room, row))

  stored-HasRow :
      (db : Db) (end : Reply (Unit {0}) × Db)
      → Users.store_user engine (new_admin admin) db ≡ end
      → Ensures HasRow (or_panic (new_admin admin) end)
  unfolding Users.store_user
  stored-HasRow db (ok _, db') e =
      let (tags, made, written) = store_user-inversion engine sql (new_admin admin) db db' e in
      (
        refl,
        row_of_user engine (new_admin admin) tags,
        ap (λ (t : Database). lookup admin t.users) written
            ∙ lookup-put_user enforced admin admin (row_of_user engine (new_admin admin) tags)
                (tables db) refl,
      )
  stored-HasRow db (not_found, db') e = tt
  stored-HasRow db (other_error, db') e = tt

  known-HasRow :
      (db : Db) (o : Option UserRow) (reply : Reply UserRow)
      → lookup admin (tables db).users ≡ o
      → Answers o reply
      → Ensures HasRow (
          find_admin
            (sql_store engine)
            admin
            db
            (map_reply (user_of_row engine (record zero_user { id = admin })) reply))
  unfolding user_of_row
  known-HasRow db none not_found there answer =
      stored-HasRow db (Users.store_user engine (new_admin admin) db) refl
  known-HasRow db none other_error there answer = tt
  known-HasRow db none (ok row) there (inl missing) = cc missing
  known-HasRow db none (ok row) there (inr failed) = cc failed
  known-HasRow db (some row) reply there (inl found) = rw found (refl, row, there)
  known-HasRow db (some row) reply there (inr failed) = rw failed tt

  admin-HasRow :
      (db : Db)
      → Ensures HasRow (
          find_admin
            (sql_store engine)
            admin
            db
            (Users.get_user engine (record zero_user { id = admin }) db))
  unfolding Users.get_user
  admin-HasRow db =
      known-HasRow db (lookup admin (tables db).users) (engine.query_user admin db) refl
        (sql.query_user-Answers admin db)

  default_room-allows_guests : (owner : User) → allows_guests (default_room owner).tags ≡ true
  unfolding allows_guests lookup text_eq parse_bool
  default_room-allows_guests owner = refl

  written-IsKept :
      (owner : User) (db : Db) (tags : Text) (end : Bool × Db)
      → HasRow (owner, db)
      → engine.marshal_tags (default_room owner).tags ≡ some tags
      → engine.exec (put_room (codes "default") (record { owner_id = owner.id; tags = tags })) db
        ≡ end
      → Ensures IsKept (or_panic (default_room owner ∷ []) (done_or_error end))
  written-IsKept owner db tags (false, db') has made e = tt
  written-IsKept owner db tags (true, db') (same, row, there) made e =
      let room : RoomRow = record { owner_id = owner.id; tags = tags } in
      (
        owner,
        default_room owner,
        room,
        row,
        refl,
        refl,
        refl,
        same,
        default_room-allows_guests owner,
        made,
        same,
        ap (select_room (codes "default"))
              (sql.exec-done (put_room (codes "default") room) db db' e)
            ∙ lookup-put_room enforced (codes "default") room row (tables db)
                (ap (λ id. lookup id (tables db).users) same ∙ there),
      )

  room-IsKept :
      (owner : User) (db : Db) (o : Option Text)
      → HasRow (owner, db)
      → engine.marshal_tags (default_room owner).tags ≡ o
      → Ensures IsKept (
          Rooms.store_marshalled_room engine (default_room owner) db o
          >>= or_panic (default_room owner ∷ []))
  room-IsKept owner db none has made = tt
  room-IsKept owner db (some tags) has made =
      written-IsKept owner db tags
        (engine.exec (put_room (codes "default") (record { owner_id = owner.id; tags = tags })) db)
        has made refl

  -- Where SQLite keeps no room, the server that starts without a panic has the default room only, which
  -- the configured admin owns and which allows guests, and its row and the owner's are found in the
  -- database that the start leaves.
  pub start_rooms-IsKept :
      (db : Db)
      → Rooms.get_rooms engine db ≡ ok []
      → Ensures IsKept (start_rooms (sql_store engine) admin db)
  unfolding start_rooms create_room Rooms.store_room
  start_rooms-IsKept db empty =
      subst (λ reply. Ensures IsKept (rooms_or_default (sql_store engine) admin db reply))
        (sym empty)
        (Ensures-bind HasRow IsKept
          (find_admin (sql_store engine) admin db
            (Users.get_user engine (record zero_user { id = admin }) db))
          _ (admin-HasRow db)
          (λ (owner, db') has.
            room-IsKept owner db' (engine.marshal_tags (default_room owner).tags) has refl))
