-- ===== src/Sql/ReadBack.antt =====
-- What the persister on SQLite finds after a write (persistence/sqlite.go).
use lightspeed_chat.Base.{
  Text, Bool, true, false, ◌≡◌, refl, ap, ◌∙◌, subst, ◌⊎◌, inl, inr, Option, none, some, [], lookup,
  lookup-insert, text_eq, text_eq_refl, not, arith, Dict, ◌∷◌,
}
use lightspeed_chat.Types.{User, Room, or_new}
use lightspeed_chat.Bunt.{Reply, ok, not_found, other_error}
use lightspeed_chat.Sql.{Engine, at_second}
use lightspeed_chat.Sql.Tables.{
  UserRow, RoomRow, Database, Statement, put_user, delete_user, apply, select_room, joined_room,
  drop_user, rows_where,
}
use lightspeed_chat.Sql.Behaviour.{IsSql, Answers}
use lightspeed_chat.Sql.Users.{
  row_of_user, store_marshalled, done_or_error, store_user, get_user, user_of_row, delete_user_row,
}
use lightspeed_chat.Sql.Rooms.{get_room}

pub lookup-put_user :
    (enforced : Bool) (id asked : Text) (row : UserRow) (t : Database)
    → asked ≡ id
    → lookup asked (apply enforced (put_user id row) t).users ≡ some row
unfolding apply
lookup-put_user enforced id asked row t same =
    lookup-insert id asked row t.users ∙ rw (same, text_eq_refl id) refl

-- The table without a key.
lookup-without :
    {V : Type 0} (key : Text) (m : Dict V)
    → lookup key (rows_where (λ id row. not (text_eq id key)) m) ≡ none
unfolding lookup
lookup-without key [] = refl
lookup-without key ((id, row) ∷ m) = ground (arith, lookup-without key m)

-- A room is joined with no owner once the owner's row is gone.
orphan :
    (user id : Text) (row : RoomRow) (t : Database)
    → lookup id t.rooms ≡ some row
    → row.owner_id ≡ user
    → select_room id (drop_user false user t) ≡ none
unfolding select_room
orphan user id row t there owned =
    let users = rows_where (λ key r. not (text_eq key user)) t.users in
    let gone : lookup row.owner_id users ≡ none =
      ap (λ key. lookup key users) owned ∙ lookup-without user t.users in
    rw (select_room, there, joined_room, gone) refl

module _ (engine : Engine) (sql : IsSql engine) where
  open engine use {Db}
  open sql use {enforced, tables}

  pub done_or_error-inversion :
      (s : Statement) (db db' : Db)
      → done_or_error (engine.exec s db) ≡ (ok tt, db')
      → tables db' ≡ apply enforced s (tables db)
  done_or_error-inversion s db db' h = go (engine.exec s db) refl h
    where
      go :
          (end : Bool × Db)
          → engine.exec s db ≡ end
          → done_or_error end ≡ (ok tt, db')
          → tables db' ≡ apply enforced s (tables db)
      go (true, db'') e h =
          subst (λ d. tables d ≡ apply enforced s (tables db))
            (ap (λ (r : Reply (Unit {0}) × Db). r.1) h) (sql.exec-done s db db'' e)
      go (false, db'') e h = absurd (ground (arith, h))

  -- The user as it is read back: to the second, with its tags as json rebuilds them.
  abbrev pub Kept : User → User → Type 0
  Kept user found =
      (tags : Text) × (engine.marshal_tags (some (or_new user.tags [])) ≡ some tags)
      × (found ≡ record user {
        tags = engine.unmarshal_tags tags;
        last_online = at_second user.last_online.unix;
      })

  pub store_user-inversion :
      (user : User) (db db' : Db)
      → store_user engine user db ≡ (ok tt, db')
      → (tags : Text) × (engine.marshal_tags (some (or_new user.tags [])) ≡ some tags)
        × (tables db'
            ≡ apply enforced (put_user user.id (row_of_user engine user tags)) (tables db))
  unfolding store_user
  store_user-inversion user db db' h = go (engine.marshal_tags (some (or_new user.tags []))) refl h
    where
      go :
          (o : Option Text)
          → engine.marshal_tags (some (or_new user.tags [])) ≡ o
          → store_marshalled engine user db o ≡ (ok tt, db')
          → (tags : Text) × (engine.marshal_tags (some (or_new user.tags [])) ≡ some tags)
            × (tables db'
                ≡ apply enforced (put_user user.id (row_of_user engine user tags)) (tables db))
      go none e h = absurd (ground (arith, h))
      go (some tags) e h = (
        tags,
        e,
        done_or_error-inversion (put_user user.id (row_of_user engine user tags)) db db' h,
      )

  found_or_error :
      (user asked : User) (db : Db) (tags : Text)
      → engine.marshal_tags (some (or_new user.tags [])) ≡ some tags
      → asked.id ≡ user.id
      → Answers (some (row_of_user engine user tags)) (engine.query_user asked.id db)
      → (get_user engine asked db ≡ other_error)
        ⊎ ((found : User) × (get_user engine asked db ≡ ok found) × Kept user found)
  unfolding get_user user_of_row
  found_or_error user asked db tags made same (inl found) = inr (
    user_of_row engine asked (row_of_user engine user tags),
    rw found refl,
    (tags, made, ground (arith, same)),
  )
  found_or_error user asked db tags made same (inr failed) = inl (rw failed refl)

  -- On SQLite, a user who was stored without error is found under the same identity, to the second
  -- and with the tags as json.Unmarshal rebuilds them, unless the query fails; it is not reported
  -- as missing.
  pub get_user-store_user-Kept :
      (user asked : User) (db db' : Db)
      → store_user engine user db ≡ (ok tt, db')
      → asked.id ≡ user.id
      → (get_user engine asked db' ≡ other_error)
        ⊎ ((found : User) × (get_user engine asked db' ≡ ok found) × Kept user found)
  unfolding store_user get_user apply
  get_user-store_user-Kept user asked db db' h same =
      let (tags, made, written) = store_user-inversion user db db' h in
      found_or_error user asked db' tags made same (
        subst (λ (row : Option UserRow). Answers row (engine.query_user asked.id db'))
          (ap (λ (t : Database). lookup asked.id t.users) written
            ∙ lookup-put_user enforced user.id asked.id (row_of_user engine user tags) (tables db)
                same)
          (sql.query_user-Answers asked.id db'))

  not_answered :
      (room : Room) (db : Db)
      → Answers none (engine.query_room room.id db)
      → (get_room engine room db ≡ not_found) ⊎ (get_room engine room db ≡ other_error)
  unfolding get_room
  not_answered room db (inl missing) = inl (rw missing refl)
  not_answered room db (inr failed) = inr (rw failed refl)

  -- Where SQLite does not enforce foreign keys, deleting the owner of a room without error leaves
  -- the room's row in its table, but GetRoom fails for it on the database that the deletion leaves.
  pub delete_user-orphans :
      (user : User) (room : Room) (row : RoomRow) (db db' : Db)
      → enforced ≡ false
      → lookup room.id (tables db).rooms ≡ some row
      → row.owner_id ≡ user.id
      → delete_user_row engine user db ≡ (ok tt, db')
      → (lookup room.id (tables db').rooms ≡ some row)
        × ((get_room engine room db' ≡ not_found) ⊎ (get_room engine room db' ≡ other_error))
  unfolding delete_user_row apply get_room select_room
  delete_user-orphans user room row db db' off there owned h =
      let written : tables db' ≡ drop_user false user.id (tables db) =
        done_or_error-inversion (delete_user user.id) db db' h ∙ rw off refl in
      let still : lookup room.id (tables db').rooms ≡ some row =
        ap (λ (t : Database). lookup room.id t.rooms) written ∙ there in
      let gone : select_room room.id (tables db') ≡ none =
        ap (select_room room.id) written ∙ orphan user.id room.id row (tables db) there owned in
      (
        still,
        not_answered room db' (
            subst (λ o. Answers o (engine.query_room room.id db')) gone
              (sql.query_room-Answers room.id db')),
      )
