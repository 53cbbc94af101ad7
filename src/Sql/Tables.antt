-- ===== src/Sql/Tables.antt =====
-- The tables of the database and what the SQL statements of persistence/sqlite.go do to them. A table
-- is keyed by its primary key. A statement that fails changes nothing, so only successes are here.
use lightspeed_chat.Base.{
  ℕ, ℤ, pos, negsuc, Text, Dict, Bool, true, false, ◌&&◌, ◌||◌, not, Option, none, some, List, [],
  ◌∷◌, map, select, take, drop, leb, ltb_ℤ, eq_ℤ, if◌then◌else◌, text_eq, lookup, insert,
}

pub record UserRow : Type 0 where
  pub nick : Text
  pub language : Text
  pub last_online : ℤ
  pub tags : Text

pub record RoomRow : Type 0 where
  pub owner_id : Text
  pub tags : Text

-- `created` and `created_sort` are the seconds and the nanoseconds; a user_id may be NULL.
pub record EventRow : Type 0 where
  pub room_id : Text
  pub user_id : Option Text
  pub plugin_name : Text
  pub name : Text
  pub language : Text
  pub tags : Text
  pub target_filter : Text
  pub created : ℤ
  pub created_sort : ℕ
  pub sent : ℤ

pub record Database : Type 0 where
  pub users : Dict UserRow
  pub rooms : Dict RoomRow
  pub events : Dict EventRow

-- The statements that write, each with its arguments.
pub data Statement : Type 0 where
  -- `INSERT INTO users ... ON CONFLICT (id) DO UPDATE SET ...`, and the same for rooms
  put_user : Text → UserRow → Statement
  put_room : Text → RoomRow → Statement
  -- `INSERT INTO events ... ON CONFLICT (id) DO NOTHING`
  add_event : Text → EventRow → Statement
  -- `UPDATE users SET tags=? WHERE id=?`, and the same for rooms
  set_user_tags set_room_tags : Text → Text → Statement
  -- `DELETE FROM users WHERE id=?`, and the same for rooms
  delete_user delete_room : Text → Statement

module _ {ℓ} {V : Type ℓ} where
  -- The rows whose key or value passes the test.
  abbrev pub rows_where : (Text → V → Bool) → Dict V → Dict V
  rows_where p = select (λ (row : Text × V). p row.0 row.1)

  abbrev pub contains : Text → Dict V → Bool
  contains key rows = elim (lookup key rows) [ none ↦ false | some row ↦ true ]

  abbrev pub update_row : Text → (V → V) → Dict V → Dict V
  update_row key f rows = elim (lookup key rows) [
    | none ↦ rows
    | some row ↦ insert key (f row) rows
  ]

-- `ON DELETE CASCADE` on the room of an event.
abbrev pub drop_rooms : Bool → (Text → RoomRow → Bool) → Database → Database
drop_rooms enforced gone t = record t {
  rooms = rows_where (λ id room. not (gone id room)) t.rooms;
  events =
      if enforced
      then rows_where (λ id event. not (contains event.room_id (rows_where gone t.rooms))) t.events
      else t.events;
}

-- `ON DELETE SET NULL` on the user of an event.
abbrev pub forget_user : Text → Text × EventRow → Text × EventRow
forget_user user (id, event) = elim event.user_id [
  | none ↦ (id, event)
  | some u ↦ if text_eq u user then (id, record event { user_id = none }) else (id, event)
]

-- `ON DELETE CASCADE` on the owner of a room.
abbrev pub drop_user : Bool → Text → Database → Database
drop_user enforced user t =
    let without : Database = record t {
      users = rows_where (λ id row. not (text_eq id user)) t.users;
    } in
    if enforced
    then record (drop_rooms true (λ id room. text_eq room.owner_id user) without) {
      events =
          map (forget_user user)
            (drop_rooms true (λ id room. text_eq room.owner_id user) without).events;
    }
    else without

-- What a statement makes of the tables. SQLite enforces foreign keys only where the data source name
-- asks for it.
unfoldable pub apply : Bool → Statement → Database → Database
apply enforced (put_user id row) t = record t { users = insert id row t.users }
apply enforced (put_room id row) t = record t { rooms = insert id row t.rooms }
apply enforced (add_event id row) t =
    if contains id t.events then t else record t { events = insert id row t.events }
apply enforced (set_user_tags id tags) t = record t {
  users = update_row id (λ row. record row { tags = tags }) t.users;
}
apply enforced (set_room_tags id tags) t = record t {
  rooms = update_row id (λ row. record row { tags = tags }) t.rooms;
}
apply enforced (delete_user id) t = drop_user enforced id t
apply enforced (delete_room id) t = drop_rooms enforced (λ key room. text_eq key id) t

-- A room with its owner, from `rooms AS r INNER JOIN users AS u ON r.owner_id=u.id`.
abbrev pub joined_room : Database → Text → RoomRow → Option (RoomRow × UserRow)
joined_room t id room = elim (lookup room.owner_id t.users) [
  | none ↦ none
  | some owner ↦ some (room, owner)
]

-- `... WHERE r.id=?`
unfoldable pub select_room : Text → Database → Option (RoomRow × UserRow)
select_room id t = elim (lookup id t.rooms) [ none ↦ none | some room ↦ joined_room t id room ]

-- All rooms that have an owner.
unfoldable pub select_rooms : Database → Dict RoomRow → Dict (RoomRow × UserRow)
select_rooms t [] = []
select_rooms t ((id, room) ∷ rooms) =
    let rest = select_rooms t rooms in
    elim (joined_room t id room) [ none ↦ rest | some both ↦ (id, both) ∷ rest ]

-- The arguments of the query of GetEventHistory.
pub record Window : Type 0 where
  pub room_id : Text
  pub from : ℤ
  pub to : ℤ
  pub limit : ℤ
  pub offset : ℤ

-- An event with its room, its owner and, if there is one, the user.
pub record Match : Type 0 where
  pub id : Text
  pub event : EventRow
  pub room : RoomRow
  pub owner : UserRow
  pub user : Option UserRow

-- `WHERE r.id=? AND e.created >= ? AND e.created < ?`
abbrev pub in_window : Window → EventRow → Bool
in_window w event =
    text_eq event.room_id w.room_id && not (ltb_ℤ event.created w.from) && ltb_ℤ event.created w.to

-- `LEFT JOIN users AS u ON u.id=e.user_id`
abbrev pub left_join : Option Text → Dict UserRow → Option UserRow
left_join none users = none
left_join (some id) users = lookup id users

abbrev pub joined_event : Database → Text → EventRow → Option Match
joined_event t id event = elim (select_room event.room_id t) [
  | none ↦ none
  | some (room, owner) ↦ some (record {
    id = id;
    event = event;
    room = room;
    owner = owner;
    user = left_join event.user_id t.users;
  })
]

unfoldable pub select_events : Window → Database → Dict EventRow → List Match
select_events w t [] = []
select_events w t ((id, event) ∷ events) =
    let rest = select_events w t events in
    if in_window w event
    then elim (joined_event t id event) [ none ↦ rest | some found ↦ found ∷ rest ]
    else rest

-- `ORDER BY e.created, e.created_sort DESC`
abbrev pub in_order : Match → Match → Bool
in_order a b =
    ltb_ℤ a.event.created b.event.created
    || eq_ℤ a.event.created b.event.created && leb b.event.created_sort a.event.created_sort

-- `LIMIT ? OFFSET ?`: a negative limit is none, a negative offset is 0.
abbrev pub limit_rows : ℤ → List Match → List Match
limit_rows (pos n) rows = take n rows
limit_rows (negsuc n) rows = rows

abbrev pub offset_rows : ℤ → List Match → List Match
offset_rows (pos n) rows = drop n rows
offset_rows (negsuc n) rows = rows
