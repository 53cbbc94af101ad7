-- ===== src/Sql/Rooms.antt =====
-- The rooms of persistence/sqlite.go.
use lightspeed_chat.Base.{
  Text, ℤ, pos, Bool, Option, none, some, List, [], if◌then◌else◌, Run, returns, ◌>>=◌,
}
use lightspeed_chat.Strings.{is_empty}
use lightspeed_chat.Types.{User, Room, TagUpdate, zero_user, zero_room, or_new}
use lightspeed_chat.Filter.{ExprLib}
use lightspeed_chat.Filter.TagUpdates.{or_empty}
use lightspeed_chat.Delivery.{deref}
use lightspeed_chat.Bunt.{Reply, other_error}
use lightspeed_chat.Sql.{Engine, RoomScan, at_second}
use lightspeed_chat.Sql.Tables.{RoomRow, UserRow, put_room, delete_room, set_room_tags}
use lightspeed_chat.Sql.Users.{
  done_or_error, map_reply, read_query, user_of_row, write_tags, in_transaction, retag,
}

-- `sql.NullInt64.Int64`
abbrev pub or_zero : Option ℤ → ℤ
or_zero none = pos 0
or_zero (some n) = n

module _ (engine : Engine) where
  open engine use {Db}

  -- What follows `json.Marshal(room.Tags)`, none for its error. An owner that is nil panics.
  abbrev pub store_marshalled_room : Room → Db → Option Text → Run (Reply (Unit {0}) × Db)
  store_marshalled_room room db none = returns (other_error, db)
  store_marshalled_room room db (some tags) = do
    owner ← deref room.owner
    returns (
        done_or_error
          (engine.exec (put_room room.id (record { owner_id = owner.id; tags = tags })) db))

  unfoldable pub store_room : Room → Db → Run (Reply (Unit {0}) × Db)
  store_room room db =
      store_marshalled_room room db (engine.marshal_tags (some (or_new room.tags [])))

  unfoldable pub room_of_row : Room → RoomRow × UserRow → Room
  unfolding user_of_row
  room_of_row room (row, owner) = record room {
    tags = engine.unmarshal_tags row.tags;
    owner = some (user_of_row engine (record zero_user { id = row.owner_id }) owner);
  }

  unfoldable pub get_room : Room → Db → Reply Room
  unfolding room_of_row
  get_room room db = map_reply (room_of_row room) (engine.query_room room.id db)

  unfoldable pub delete_room_row : Room → Db → Reply (Unit {0}) × Db
  delete_room_row room db = done_or_error (engine.exec (delete_room room.id) db)

  -- The owner of a row; all its columns but the tags are skipped where the identity is NULL.
  abbrev pub scanned_owner : RoomScan → User
  scanned_owner scan = elim scan.user_id [
    | none ↦ record zero_user { tags = engine.unmarshal_tags (or_empty scan.user_tags) }
    | some id ↦ record {
      id = id;
      nick = or_empty scan.nick;
      language = or_empty scan.language;
      last_online = at_second (or_zero scan.last_online);
      tags = engine.unmarshal_tags (or_empty scan.user_tags);
    }
  ]

  abbrev pub scanned_room : RoomScan → Room
  scanned_room scan = record zero_room {
    id = scan.id;
    tags = engine.unmarshal_tags scan.room_tags;
    owner = some (scanned_owner scan);
  }

  unfoldable pub get_rooms : Db → Reply (List Room)
  unfolding read_query
  get_rooms db = read_query scanned_room (engine.query_rooms db)

  unfoldable pub update_room_tags :
      (lib : ExprLib) → Room → List TagUpdate → Db → Run (Reply (Room × List Bool) × Db)
  unfolding write_tags
  update_room_tags lib room updates db =
      if is_empty room.id
      then returns (other_error, db)
      else in_transaction engine
          (λ tx.
            retag engine lib (set_room_tags room.id) (λ tags. record room { tags = tags }) updates
              tx db (engine.query_room_tags room.id tx))
          db (engine.begin db)
