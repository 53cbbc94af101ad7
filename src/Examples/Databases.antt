-- ===== src/Examples/Databases.antt =====
-- The theorems on the persister on SQLite, at an engine whose database is its tables
-- (persistence/sqlite.go).
use lightspeed_chat.Base.{
  ℤ, pos, Text, codes, Bool, true, false, ◌≡◌, refl, sym, ap, subst, inl, inr, ◌⊎◌, Option, none,
  some, List, [], ◌∷◌, map, lookup, insert, text_eq, if◌then◌else◌, Bool-cases, Ensures, arith,
}
use mathlib.Core.Option
use mathlib.Core.Option.{some-injective, none-ne-some}
use lightspeed_chat.Types.{User, Room, Tags, TagUpdate, zero_user}
use lightspeed_chat.Bunt.{Reply, ok, not_found, other_error}
use lightspeed_chat.Sql.{Engine, Scans, at_second}
use lightspeed_chat.Sql.Tables.{
  UserRow, RoomRow, EventRow, Match, Database, Window, apply, select_room, select_rooms,
  select_events, in_order, limit_rows, offset_rows,
}
use lightspeed_chat.Sql.Behaviour.{
  IsSql, IsPage, Shows, Arranges, IsOrdered, Answers, room_scan, tags_of_user, tags_of_room,
}
use lightspeed_chat.Sql.Users.{store_user, get_user, update_user_tags, delete_user_row}
use lightspeed_chat.Sql.Rooms.{get_room}
use lightspeed_chat.Sql.Events.{store_events, get_event_history, event_of_row}
use lightspeed_chat.Sql.TagWrites.{TagsUser, update_user_tags-TagsUser}
use lightspeed_chat.Sql.ReadBack.{delete_user-orphans}
use lightspeed_chat.Sql.Clients.{sql_users, IsAgain, known_user-again}
use lightspeed_chat.Session.Connect.{known_user}
use lightspeed_chat.Examples.Sessions.{session_lib, frame}
use lightspeed_chat.Examples.{ann}
use lightspeed_chat.Sql.Batches.{StoresAll, store_events-StoresAll}
use lightspeed_chat.Sql.Pages.{IsOldest, window, get_event_history-IsOldest}
use lightspeed_chat.Examples.{room, chat_event, noon, example_lib}

abbrev reply_of : {A : Type 0} → Option A → Reply A
reply_of none = not_found
reply_of (some a) = ok a

reply_of-Answers : {A : Type 0} (o : Option A) → Answers o (reply_of o)
reply_of-Answers none = inl refl
reply_of-Answers (some a) = inl refl

abbrev page_of : Window → List Match → Scans Match
page_of w rows = map some (limit_rows w.limit (offset_rows w.offset rows))

-- Up to two events that match.
abbrev small_page : Window → List Match → Option (Scans Match)
small_page w [] = some (page_of w [])
small_page w (a ∷ []) = some (page_of w (a ∷ []))
small_page w (a ∷ b ∷ []) = if in_order a b then some (page_of w (a ∷ b ∷ [])) else none
small_page w (a ∷ b ∷ c ∷ rows) = none

-- The texts of tags are kept for none and for one tag.
abbrev tag_text : Option Tags → Option Text
tag_text (some ((key, value) ∷ tags)) = some value
tag_text _ = some []

abbrev text_tag : Text → Option Tags
text_tag [] = some []
text_tag (c ∷ text) = some ((codes "light", c ∷ text) ∷ [])

abbrev pub tables_engine : Engine
tables_engine = record {
  Db = Database;
  Tx = Database;
  exec = λ s db. (true, apply false s db);
  query_user = λ id db. reply_of (lookup id db.users);
  query_users = λ db. some (map some db.users);
  query_room = λ id db. reply_of (select_room id db);
  query_rooms = λ db. some (map some (map room_scan (select_rooms db db.rooms)));
  query_events = λ w db. small_page w (select_events w db db.events);
  begin = λ db. some db;
  query_user_tags = λ id tx. reply_of (Option.map tags_of_user (lookup id tx.users));
  query_room_tags = λ id tx. reply_of (Option.map tags_of_room (lookup id tx.rooms));
  exec_in = λ s tx. some (apply false s tx);
  commit = λ tx db. (true, tx);
  rollback = λ tx db. db;
  marshal_tags = tag_text;
  unmarshal_tags = text_tag;
}

map-some-Shows : {A : Type 0} (rows : List A) → Shows rows (map some rows)
map-some-Shows [] = tt
map-some-Shows (row ∷ rows) = (inr refl, map-some-Shows rows)

Arranges-refl : {A : Type 0} (rows : List A) → Arranges rows rows
Arranges-refl [] = refl
Arranges-refl (row ∷ rows) = ([], rows, refl, Arranges-refl rows)

small_page-IsOrdered :
    (w : Window) (rows : List Match) (scans : Scans Match)
    → small_page w rows ≡ some scans
    → IsOrdered rows
small_page-IsOrdered w [] scans h = tt
small_page-IsOrdered w (a ∷ []) scans h = (tt, tt)
small_page-IsOrdered w (a ∷ b ∷ []) scans h = ground (arith, h)
small_page-IsOrdered w (a ∷ b ∷ c ∷ rows) scans h = cc h

page-eq :
    (w : Window) (rows : List Match) (scans : Scans Match)
    → small_page w rows ≡ some scans
    → page_of w rows ≡ scans
page-eq w [] scans h = cc h
page-eq w (a ∷ []) scans h = cc h
page-eq w (a ∷ b ∷ []) scans h = elim (Bool-cases (in_order a b)) [
  | inl right ↦ some-injective (page_of w (a ∷ b ∷ [])) scans (rw right at h)
  | inr wrong ↦ absurd (none-ne-some scans (rw wrong at h))
]
page-eq w (a ∷ b ∷ c ∷ rows) scans h = cc h

small_page-shown :
    (w : Window) (rows : List Match) (scans : Scans Match)
    → small_page w rows ≡ some scans
    → Shows (limit_rows w.limit (offset_rows w.offset rows)) scans
small_page-shown w rows scans h =
    subst (Shows (limit_rows w.limit (offset_rows w.offset rows))) (page-eq w rows scans h)
      (map-some-Shows _)

small_page-IsPage :
    (t : Database) (w : Window) (rows : List Match) (scans : Scans Match)
    → select_events w t t.events ≡ rows
    → small_page w rows ≡ some scans
    → IsPage t w scans
small_page-IsPage t w rows scans e h = record {
  sorted = rows;
  arranged = subst (Arranges rows) (sym e) (Arranges-refl rows);
  ordered = small_page-IsOrdered w rows scans h;
  shown = small_page-shown w rows scans h;
}

pub tables_engine-IsSql : IsSql tables_engine
tables_engine-IsSql = record {
  enforced = false;
  tables = λ db. db;
  tables_in = λ tx. tx;
  exec-done = λ s db db' h. sym (ap (λ (p : Bool × Database). p.1) h);
  exec-failed = λ s db db' h. cc h;
  query_user-Answers = λ id db. reply_of-Answers (lookup id db.users);
  query_room-Answers = λ id db. reply_of-Answers (select_room id db);
  query_users-Shows = λ db scans h. (
    db.users,
    Arranges-refl db.users,
    subst (Shows db.users) (some-injective (map some db.users) scans h) (map-some-Shows db.users),
  );
  query_rooms-Shows = λ db scans h. (
    select_rooms db db.rooms,
    Arranges-refl (select_rooms db db.rooms),
    subst (Shows (map room_scan (select_rooms db db.rooms)))
        (some-injective (map some (map room_scan (select_rooms db db.rooms))) scans h)
        (map-some-Shows (map room_scan (select_rooms db db.rooms))),
  );
  query_events-IsPage =
      λ w db scans h. small_page-IsPage db w (select_events w db db.events) scans refl h;
  begin-tables = λ db tx h. cc h;
  query_user_tags-Answers =
      λ id tx. reply_of-Answers (Option.map tags_of_user (lookup id tx.users));
  query_room_tags-Answers =
      λ id tx. reply_of-Answers (Option.map tags_of_room (lookup id tx.rooms));
  exec_in-done = λ s tx tx' h. cc h;
  commit-done = λ tx db db' h. cc h;
  commit-failed = λ tx db db' h. cc h;
  rollback-tables = λ tx db. refl;
}

abbrev ann_row : UserRow
ann_row = record {
  nick = codes "ann";
  language = codes "en";
  last_online = pos 7;
  tags = codes "off";
}

abbrev room_row : RoomRow
room_row = record { owner_id = codes "a1"; tags = [] }

abbrev event_row : ℤ → EventRow
event_row created = record {
  room_id = codes "r";
  user_id = some (codes "a1");
  plugin_name = [];
  name = codes "chat";
  language = codes "en";
  tags = [];
  target_filter = [];
  created = created;
  created_sort = 0;
  sent = pos 0;
}

abbrev stored : Database
stored = record {
  users = (codes "a1", ann_row) ∷ [];
  rooms = (codes "r", room_row) ∷ [];
  events = (codes "e1", event_row (pos 1)) ∷ (codes "e2", event_row (pos 2)) ∷ [];
}

abbrev asked : User
asked = record zero_user { id = codes "a1" }

abbrev switch_on : List TagUpdate
switch_on =
    record { name = codes "light"; type = pos 0; index = pos 0; expression = codes "x" } ∷ []

update_user_tags-TagsUser_example :
    Ensures
      (TagsUser tables_engine tables_engine-IsSql example_lib asked switch_on stored)
      (update_user_tags tables_engine example_lib asked switch_on stored)
update_user_tags-TagsUser_example =
    update_user_tags-TagsUser tables_engine tables_engine-IsSql example_lib asked switch_on stored

abbrev unknown : Database
unknown = record stored { users = [] }

abbrev ann_fresh : User
ann_fresh = record ann { language = codes "en"; last_online = noon }

abbrev ann_known : Database
ann_known = record stored {
  users =
      (
        codes "a1",
        record { nick = codes "ann"; language = codes "en"; last_online = noon.unix; tags = [] },
      )
      ∷ [];
}

known_user-again_example :
    IsAgain tables_engine tables_engine-IsSql ann_fresh
      (known_user session_lib (some (sql_users tables_engine)) (frame []) ann ann_known).0
unfolding known_user get_user store_user insert lookup text_eq apply
known_user-again_example =
    known_user-again tables_engine tables_engine-IsSql session_lib (frame []) (frame []) ann
      ann_fresh unknown ann_known refl refl refl

store_events-StoresAll_example :
    Ensures
      (StoresAll tables_engine tables_engine-IsSql (some chat_event ∷ some chat_event ∷ []) stored)
      (store_events tables_engine (some chat_event ∷ some chat_event ∷ []) stored)
store_events-StoresAll_example =
    store_events-StoresAll tables_engine tables_engine-IsSql
      (some chat_event ∷ some chat_event ∷ []) stored

abbrev the_room : Room
the_room = record room { id = codes "r" }

abbrev first_match : Match
first_match = record {
  id = codes "e1";
  event = event_row (pos 1);
  room = room_row;
  owner = ann_row;
  user = some ann_row;
}

get_event_history-IsOldest_example :
    IsOldest tables_engine stored
      (window tables_engine tables_engine-IsSql the_room (at_second (pos 0)) noon 1)
      1
      (event_of_row tables_engine first_match ∷ [])
unfolding get_event_history select_events select_room lookup text_eq tables_engine-IsSql
get_event_history-IsOldest_example =
    get_event_history-IsOldest tables_engine tables_engine-IsSql the_room (at_second (pos 0)) noon 1
      stored (event_of_row tables_engine first_match ∷ []) refl

delete_user-orphans_example :
    (lookup (codes "r") (record stored { users = [] }).rooms ≡ some room_row)
    × ((get_room tables_engine the_room (record stored { users = [] }) ≡ not_found)
        ⊎ (get_room tables_engine the_room (record stored { users = [] }) ≡ other_error))
unfolding delete_user_row apply lookup text_eq tables_engine-IsSql
delete_user-orphans_example =
    delete_user-orphans tables_engine tables_engine-IsSql asked the_room room_row stored
      (record stored { users = [] }) refl refl refl refl
