-- ===== src/Bunt/Events.antt =====
-- The events of persistence/buntdb.go, in the database of their room.
use lightspeed_chat.Base.{
  ℕ, suc, Text, codes, ◌++◌, true, ◌||◌, Option, none, some, List, [], ◌∷◌, if◌then◌else◌, ltb,
  ◌==◌, lookup, insert,
}
use lightspeed_chat.Strings.{is_empty}
use lightspeed_chat.Types.{Time, Room, Event, in_utc}
use lightspeed_chat.Bunt.{
  Reply, ok, other_error, then_ok, or_other, Kv, update, set_value, event_key,
}
use lightspeed_chat.Bunt.Rooms.{Bunt}
use lightspeed_chat.Bunt.Rfc3339.{rfc3339}

module _ (kv : Kv) where
  -- The body of the transaction of StoreEvents.
  unfoldable pub set_events : List Event → kv.Db → Reply (Unit {0} × kv.Db)
  set_events [] tx = ok (tt, tx)
  set_events (event ∷ events) tx = then_ok (or_other (kv.marshal_event event)) (λ msg.
      then_ok (set_value kv (event_key event.id) msg tx) (λ (_, tx'). set_events events tx'))

  unfoldable pub store_events : Option Room → List Event → Bunt kv → Reply (Unit {0}) × Bunt kv
  unfolding update set_events
  store_events room events p = if is_empty events then (ok tt, p) else elim room [
    | none ↦ (other_error, p)
    | some r ↦ elim (lookup r.id p.room_dbs) [
      | none ↦ (other_error, p)
      | some room_db ↦
          let (reply, room_db') = update kv (set_events events) room_db in
          (reply, record p { room_dbs = insert r.id room_db' p.room_dbs })
    ]
  ]

  abbrev pub from_history : Event → Event
  from_history event = record event { history = true }

  -- `events = append(events, event)`, if the value is an event.
  abbrev pub add_decoded : Text → List Event → List Event
  add_decoded val events = elim (kv.unmarshal_event val) [
    | none ↦ events
    | some event ↦ from_history event ∷ events
  ]

  -- The function that DescendRange calls on value after value, `seen` of which came before, of which it
  -- counted `count`. A count of 0 or below asks for all, so both numbers are not negative here.
  unfoldable pub page : ℕ → ℕ → ℕ → ℕ → List Text → List Event
  page from_idx max_count seen count [] = []
  page from_idx max_count seen count (val ∷ vals) =
      let skipped = page from_idx max_count (suc seen) count vals in
      let rest = page from_idx max_count (suc seen) (suc count) vals in
      if ltb seen from_idx
      then skipped
      else add_decoded val (if max_count == 0 || ltb (suc count) max_count then rest else [])

  -- `fmt.Sprintf(`{"created":"%s"}`, t.In(time.UTC).Format(time.RFC3339))`
  abbrev pub created_condition : Time → Text
  created_condition t = codes "{\"created\":\"" ++ rfc3339 (in_utc t) ++ codes "\"}"

  unfoldable pub get_event_history :
      Option Room → Time → Time → ℕ → ℕ → Bunt kv → Reply (List Event)
  unfolding page
  get_event_history none from_ts to_ts from_idx max_count p = other_error
  get_event_history (some room) from_ts to_ts from_idx max_count p =
      then_ok (or_other (lookup room.id p.room_dbs)) (λ room_db. ok (
        page from_idx max_count 0 0 (
          kv.descend_range (codes "eventsts") (created_condition to_ts) (created_condition from_ts)
            room_db)))
