-- ===== src/Bunt/Rooms.antt =====
-- The rooms of persistence/buntdb.go: the global database holds their records, and each has a database
-- of its own for its events.
use lightspeed_chat.Base.{
  Text, codes, Dict, Bool, true, false, ◌&&◌, not, Option, none, some, List, [], if◌then◌else◌, Run,
  returns, ◌>>=◌, lookup, insert, text_eq, select,
}
use lightspeed_chat.Strings.{is_empty}
use lightspeed_chat.Types.{Room, Tags, zero_room, TagUpdate, or_new}
use lightspeed_chat.Filter.{ExprLib}
use lightspeed_chat.Filter.TagUpdates.{update_tags}
use lightspeed_chat.Bunt.{
  Reply, ok, not_found, other_error, then_ok, then_run, or_other, Kv, update, view, set_value,
  delete_value, room_key, decode_all,
}

module _ (kv : Kv) where
  -- `BuntDBPersist`
  pub record Bunt : Type 0 where
    pub db : kv.Db
    pub room_dbs : Dict kv.Db

  -- `getRoomDbName`
  unfoldable pub get_room_db_name : Room → Option Text
  get_room_db_name room = elim (kv.execute_template room.id) [
    | none ↦ none
    | some file_name ↦ if is_empty file_name then none else some file_name
  ]

  -- The database of a room, with its index.
  unfoldable pub open_room_db : Room → Option kv.Db
  unfolding get_room_db_name
  open_room_db room = elim (get_room_db_name room) [
    | none ↦ none
    | some file_name ↦ elim (kv.open_file file_name) [ none ↦ none | some db ↦ kv.create_index db ]
  ]

  abbrev pub is_some {ℓ} : {A : Type ℓ} → Option A → Bool
  is_some none = false
  is_some (some a) = true

  -- What is done to the record when there is no database for it; its own errors are ignored.
  unfoldable pub put_back : Room → Option Text → kv.Db → kv.Db
  unfolding update
  put_back room (some old) db = (update kv (set_value kv (room_key room.id) old) db).1
  put_back room none db = (update kv (delete_value kv true (room_key room.id)) db).1

  unfoldable pub store_room : Room → Bunt → Reply (Unit {0}) × Bunt
  unfolding update open_room_db put_back
  store_room room p = elim (kv.marshal_room room) [
    | none ↦ (other_error, p)
    | some u ↦
        let (reply, db) = update kv (kv.set true (room_key room.id) u) p.db in
        elim reply [
          | not_found ↦ (not_found, record p { db = db })
          | other_error ↦ (other_error, record p { db = db })
          | ok replaced ↦
              if is_some replaced && is_some (lookup room.id p.room_dbs)
              then (ok tt, record p { db = db })
              else elim (open_room_db room) [
                | none ↦ (other_error, record p { db = put_back room replaced db })
                | some room_db ↦
                    (ok tt, record { db = db; room_dbs = insert room.id room_db p.room_dbs })
              ]
        ]
  ]

  unfoldable pub get_room : Room → Bunt → Reply Room
  unfolding view
  get_room room p =
      if is_empty room.id
      then other_error
      else view kv
          (λ tx.
            then_ok (kv.get (room_key room.id) tx)
              (λ u. then_ok (or_other (kv.unmarshal_room u room)) (λ room'. ok (room', tx))))
          p.db

  -- `delete(m, k)`
  abbrev pub remove : Text → Dict kv.Db → Dict kv.Db
  remove key = select (λ (entry : Text × kv.Db). not (text_eq entry.0 key))

  -- `oldVal` is still empty when the deletion fails.
  unfoldable pub delete_room : Room → Bunt → Reply (Unit {0}) × Bunt
  unfolding update
  delete_room room p =
      if is_empty room.id
      then (other_error, p)
      else (let (reply, db) = update kv (delete_value kv true (room_key room.id)) p.db in
          elim reply [
            | ok _ ↦ (ok tt, record { db = db; room_dbs = remove (room_key room.id) p.room_dbs })
            | not_found ↦
                (not_found, record p { db = (update kv (set_value kv (room_key room.id) []) db).1 })
            | other_error ↦ (
              other_error,
              record p { db = (update kv (set_value kv (room_key room.id) []) db).1 },
            )
          ])

  unfoldable pub get_rooms : Bunt → Reply (List Room)
  get_rooms p =
      ok (decode_all (λ val. kv.unmarshal_room val zero_room) (kv.descend (codes "rooms") p.db))

  -- The stored room, read over the caller's.
  abbrev pub read_room : Room → kv.Db → Reply Room
  read_room room tx =
      then_ok (kv.get (room_key room.id) tx) (λ u. or_other (kv.unmarshal_room u room))

  -- The room with new tags, written under its key.
  abbrev pub write_room :
      Room → Option Tags → List Bool → kv.Db → Reply ((Room × List Bool) × kv.Db)
  write_room stored tags oks tx =
      let room' : Room = record stored { tags = tags } in
      then_ok (or_other (kv.marshal_room room')) (λ text.
        then_ok (set_value kv (room_key stored.id) text tx) (λ (_, tx'). ok ((room', oks), tx')))

  -- The body of the transaction of UpdateRoomTags: the room and the reports.
  unfoldable pub tag_room :
      (lib : ExprLib) → Room → List TagUpdate → kv.Db → Run (Reply ((Room × List Bool) × kv.Db))
  tag_room lib room updates tx = then_run (read_room room tx) (λ stored. do
    (tags, oks) ← update_tags lib (some (or_new stored.tags [])) updates
    returns (write_room stored tags oks tx))

  unfoldable pub update_room_tags :
      (lib : ExprLib) → Room → List TagUpdate → Bunt → Run (Reply (Room × List Bool) × Bunt)
  unfolding update tag_room
  update_room_tags lib room updates p = if is_empty room.id then returns (other_error, p) else (do
    reply ← tag_room lib room updates p.db
    (let (result, db) = update kv (λ _. reply) p.db in returns (result, record p { db = db })))
