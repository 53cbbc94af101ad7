-- ===== src/Bunt/Faults.antt =====
-- Two deletions of persistence/buntdb.go.
use lightspeed_chat.Base.{Text, true, false, ◌≡◌, refl, Option, [], Bool-cases, inl, inr, arith}
use lightspeed_chat.Strings.{is_empty}
use lightspeed_chat.Types.{User, Room}
use lightspeed_chat.Bunt.{ok, not_found, other_error, Kv, update, view, user_key, room_key}
use lightspeed_chat.Bunt.Users.{delete_user}
use lightspeed_chat.Bunt.Rooms.{Bunt, delete_room}
use lightspeed_chat.Bunt.ReadBack.{IsStore}

module _ (kv : Kv) (store : IsStore kv) where
  -- DeleteUser deletes nobody: it always returns an error and leaves the database as it is.
  pub delete_user-fails : (user : User) (db : kv.Db) → delete_user kv user db ≡ (other_error, db)
  unfolding delete_user view
  delete_user-fails user db = elim (Bool-cases (is_empty user.id)) [
    | inl empty ↦ rw empty refl
    | inr named ↦ rw (named, view, store.delete-read_only (user_key user.id) db) refl
  ]

  -- Deleting a room that is not there returns an error and leaves an empty record under the room's
  -- key, where the store accepts the write.
  pub delete_room-missing :
      (room : Room) (p : Bunt kv) (old : Option Text) (db' : kv.Db)
      → is_empty room.id ≡ false
      → kv.delete true (room_key room.id) p.db ≡ not_found
      → kv.set true (room_key room.id) [] p.db ≡ ok (old, db')
      → kv.commits db' ≡ true
      → (delete_room kv room p ≡ (not_found, record p { db = db' }))
        × (kv.get (room_key room.id) db' ≡ ok [])
  unfolding delete_room update
  delete_room-missing room p old db' named gone written committed = (
    ground (arith, named, gone, written, committed),
    store.get-set (room_key room.id) [] p.db old db' written,
  )
