-- ===== src/Examples/Loads.antt =====
-- The theorems on the history of gorm, at a database that is the list of its events
-- (persistence/gorm.go).
use lightspeed_chat.Base.{pos, true, Option, none, some, List, [], ◌∷◌, map, select}
use lightspeed_chat.Types.{Time, Event, utc}
use lightspeed_chat.Bunt.{not_found}
use lightspeed_chat.Gorm.{Orm, EventQuery, from_history}
use lightspeed_chat.Gorm.Queries.{meets, limited, skipped, load}
use lightspeed_chat.Examples.{whisper}

-- One event at most.
abbrev few : List Event → Option (List Event)
few [] = some []
few (event ∷ []) = some (event ∷ [])
few (a ∷ b ∷ events) = none

abbrev read : EventQuery → Option (List Event) → Option (List Event)
read q none = none
read q (some events) = some (map (load q.preloads) (limited q.limit (skipped q.offset events)))

abbrev list_orm : Orm (List Event)
list_orm = record {
  upsert_user = λ user w. (true, w);
  upsert_room = λ r w. (true, w);
  first_user = λ user w. not_found;
  first_room = λ r w. not_found;
  find_users = λ w. ([], true);
  find_rooms = λ w. ([], true);
  delete_user = λ user w. (true, w);
  delete_room = λ r w. (true, w);
  set_user_tags = λ user tags w. none;
  set_room_tags = λ r tags w. none;
  create_events = λ events w. (true, w);
  find_events = λ q w. read q (few (select (meets q) w));
  commits = λ w. true;
  open_postgres = λ dsn. some [];
  open_sqlite = λ dsn. some [];
  auto_migrate = λ w. some w;
}

abbrev start : Time
start = record { unix = pos 0; nanosecond = 0; zone = utc }

abbrev loaded : List Event
loaded = from_history list_orm (load [] whisper) ∷ []
