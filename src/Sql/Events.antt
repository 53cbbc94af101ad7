-- ===== src/Sql/Events.antt =====
-- The events of persistence/sqlite.go.
use lightspeed_chat.Base.{
  ℤ, pos, Text, true, Option, none, some, List, [], ◌∷◌, if◌then◌else◌, Run, returns, ◌>>=◌,
}
use lightspeed_chat.Strings.{is_empty}
use lightspeed_chat.Types.{
  Time, User, Room, Source, Event, zero_user, zero_room, zero_source, or_new,
}
use lightspeed_chat.Delivery.{deref}
use lightspeed_chat.Bunt.{Reply, other_error}
use lightspeed_chat.Sql.{Engine, at_second}
use lightspeed_chat.Sql.Tables.{EventRow, UserRow, Match, add_event}
use lightspeed_chat.Sql.Users.{read_query, user_of_row, finish, in_transaction}

-- The user_id of a row: NULL without a user, or for a user without identity.
abbrev pub source_id : Option User → Option Text
source_id none = none
source_id (some user) = if is_empty user.id then none else some user.id

abbrev pub row_of_event : Event → Source → Room → Text → EventRow
row_of_event event source room tags = record {
  room_id = room.id;
  user_id = source_id source.user;
  plugin_name = source.plugin_name;
  name = event.name;
  language = event.language;
  tags = tags;
  target_filter = event.target_filter;
  created = event.created.unix;
  created_sort = event.created.nanosecond;
  sent = event.sent.unix;
}

abbrev pub or_stop : {A B : Type 0} → Option A → (A → Run (Option B)) → Run (Option B)
or_stop none f = returns none
or_stop (some a) f = f a

module _ (engine : Engine) where
  open engine use {Db, Tx}

  -- The round of the loop of StoreEvents, none where it rolls back. A nil source or room panics.
  unfoldable pub insert_event : Event → Tx → Run (Option Tx)
  insert_event event tx = or_stop (engine.marshal_tags (some (or_new event.tags []))) (λ tags. do
    source ← deref event.source
    room ← deref event.room
    returns (engine.exec_in (add_event event.id (row_of_event event source room tags)) tx))

  -- A nil event panics.
  unfoldable pub insert_events : List (Option Event) → Tx → Run (Option Tx)
  unfolding insert_event
  insert_events [] tx = returns (some tx)
  insert_events (pointer ∷ events) tx = do
    event ← deref pointer
    inserted ← insert_event event tx
    or_stop inserted (λ tx'. insert_events events tx')

  abbrev pub finish_batch : Tx → Db → Option Tx → Reply (Unit {0}) × Db
  finish_batch tx db none = (other_error, engine.rollback tx db)
  finish_batch tx db (some tx') = finish engine tt tx' (engine.commit tx' db)

  unfoldable pub store_events : List (Option Event) → Db → Run (Reply (Unit {0}) × Db)
  unfolding insert_events
  store_events events db =
      in_transaction engine
        (λ tx. do inserted ← insert_events events tx; returns (finish_batch tx db inserted)) db
        (engine.begin db)

  -- The user of an event: without one, or where the user is gone, the columns read as NULL.
  abbrev pub joined_user : Option Text → Option UserRow → User
  joined_user none row = record zero_user {
    tags = engine.unmarshal_tags [];
    last_online = at_second (pos 0);
  }
  joined_user (some id) none = record zero_user {
    id = id;
    tags = engine.unmarshal_tags [];
    last_online = at_second (pos 0);
  }
  joined_user (some id) (some row) = user_of_row engine (record zero_user { id = id }) row

  unfoldable pub event_of_row : Match → Event
  unfolding user_of_row
  event_of_row row = record {
    id = row.id;
    room_id = [];
    room = some (record zero_room {
      id = row.event.room_id;
      tags = engine.unmarshal_tags row.room.tags;
      owner = some (user_of_row engine (record zero_user { id = row.room.owner_id }) row.owner);
    });
    source = some (record zero_source {
      user = some (joined_user row.event.user_id row.user);
      plugin_name = row.event.plugin_name;
    });
    created = at_second row.event.created;
    language = row.event.language;
    name = row.event.name;
    tags = engine.unmarshal_tags row.event.tags;
    history = true;
    sent = at_second row.event.sent;
    target_filter = row.event.target_filter;
  }

  unfoldable pub get_event_history : Option Room → Time → Time → ℤ → ℤ → Db → Reply (List Event)
  unfolding read_query event_of_row
  get_event_history none from to from_idx max_count db = other_error
  get_event_history (some room) from to from_idx max_count db = read_query event_of_row (
      engine.query_events
        (record {
          room_id = room.id;
          from = from.unix;
          to = to.unix;
          limit = max_count;
          offset = from_idx;
        })
        db)
