-- ===== src/Examples/Stores.antt =====
-- The theorems on the persister, at a database that is an association list (persistence/buntdb.go).
use lightspeed_chat.Bunt.Users.{update_user_tags}
use lightspeed_chat.Emit.Lookups.{change_user_tags}
use lightspeed_chat.Emit.Lookups.Changes.{change_user_tags-IsTagged}
use lightspeed_chat.Bunt.TagWrites.{IsTagged, update_user_tags-IsTagged}
use lightspeed_chat.Types.{TagUpdate, User}
use lightspeed_chat.Examples.{example_lib}
use lightspeed_chat.Filter.TagUpdates.{update_tags}
use lightspeed_chat.Base.{
  pos, List, Text, codes, Dict, true, ◌≡◌, ◌≢◌, refl, ap, sym, ◌∙◌, Option, none, some, [], ◌∷◌,
  map, lookup, insert, lookup-insert, text_eq, text_eq_refl, text_eq_iff, select, not,
  if◌then◌else◌, All, arith,
}
use lightspeed_chat.Types.{Event, zero_user}
use lightspeed_chat.Bunt.{Reply, ok, not_found, other_error, Kv, decode_all, event_key}
use lightspeed_chat.Bunt.Users.{store_user, get_user}
use lightspeed_chat.Bunt.Rooms.{Bunt}
use lightspeed_chat.Bunt.Events.{store_events, get_event_history, created_condition}
use lightspeed_chat.Bunt.Rfc3339.{rfc3339}
use lightspeed_chat.Bunt.ReadBack.{IsStore, IsKept, get_user-store_user, store_events-keeps}
use lightspeed_chat.Bunt.Pages.{as_history, window, get_event_history_lem}
use lightspeed_chat.Examples.{ann, room, chat_event, noon}

abbrev get_reply : Option Text → Reply Text
get_reply none = not_found
get_reply (some v) = ok v

abbrev without : Text → Dict Text → Dict Text
without key = select (λ (entry : Text × Text). not (text_eq entry.0 key))

abbrev delete_reply : Text → Dict Text → Option Text → Reply (Text × Dict Text)
delete_reply key db none = not_found
delete_reply key db (some old) = ok (old, without key db)

-- A user's text is the nick, a room's and an event's the identity.
abbrev pub dict_kv : Kv
dict_kv = record {
  Db = Dict Text;
  get = λ key db. get_reply (lookup key db);
  set = λ writable key value db.
      if writable then ok (lookup key db, insert key value db) else other_error;
  delete = λ writable key db. if writable then delete_reply key db (lookup key db) else other_error;
  commits = λ db. true;
  descend = λ index db. map (λ (entry : Text × Text). entry.1) db;
  descend_range = λ index to from db. map (λ (entry : Text × Text). entry.1) db;
  open_file = λ name. some [];
  create_index = λ db. some db;
  marshal_user = λ u. some u.nick;
  unmarshal_user = λ text u. some (record u { nick = text });
  marshal_room = λ r. some r.id;
  unmarshal_room = λ text r. some (record r { id = text });
  marshal_event = λ e. some e.id;
  unmarshal_event = λ text. some (record chat_event { id = text });
  execute_template = λ id. some id;
}

abbrev database : Dict Text → Reply (Option Text × Dict Text) → Dict Text
database db (ok (old, db')) = db'
database db not_found = db
database db other_error = db

lookup_self : (key value : Text) (db : Dict Text) → lookup key (insert key value db) ≡ some value
lookup_self key value db = lookup-insert key key value db ∙ rw (text_eq_refl key) refl

lookup_other :
    (key other value : Text) (db : Dict Text)
    → other ≢ key
    → lookup other (insert key value db) ≡ lookup other db
lookup_other key other value db different =
    lookup-insert key other value db ∙ ground (arith, different, text_eq_iff key other)

dict_kv-IsStore : IsStore dict_kv
dict_kv-IsStore = record {
  get-set = λ key value db old db' h.
      ap (λ d. get_reply (lookup key d)) (sym (ap (database db) h))
      ∙ ap get_reply (lookup_self key value db);
  get-set_ne = λ key other value db old db' h different.
      ap (λ d. get_reply (lookup other d)) (sym (ap (database db) h))
      ∙ ap get_reply (lookup_other key other value db different);
  delete-read_only = λ key db. refl;
}

get_user-store_user_example :
    get_user dict_kv (record zero_user { id = codes "a1" }) ((codes "user:a1", codes "ann") ∷ [])
    ≡ ok (record zero_user { id = codes "a1"; nick = codes "ann" })
unfolding store_user insert lookup
get_user-store_user_example =
    get_user-store_user dict_kv dict_kv-IsStore ann (record zero_user { id = codes "a1" })
      (record zero_user { id = codes "a1"; nick = codes "ann" }) (codes "ann") []
      ((codes "user:a1", codes "ann") ∷ []) refl refl refl refl refl

abbrev first_event : Event
first_event = record chat_event { id = codes "e1" }

abbrev second_event : Event
second_event = record chat_event { id = codes "e2" }

abbrev bunt : Bunt dict_kv
bunt = record { db = []; room_dbs = (codes "r", []) ∷ [] }

abbrev filled : Dict Text
filled = (codes "event:e1", codes "e1") ∷ (codes "event:e2", codes "e2") ∷ []

abbrev bunt_filled : Bunt dict_kv
bunt_filled = record { db = []; room_dbs = (codes "r", filled) ∷ [] }

e1-ne-e2 : event_key (codes "e1") ≢ event_key (codes "e2")
unfolding text_eq
e1-ne-e2 e =
    let same : text_eq (event_key (codes "e1")) (event_key (codes "e2")) ≡ true =
      (text_eq_iff (event_key (codes "e1")) (event_key (codes "e2"))).1 e in
    cc

store_events-keeps_example :
    (db : Dict Text) × (lookup (codes "r") bunt_filled.room_dbs ≡ some db)
    × All (IsKept dict_kv db) (first_event ∷ second_event ∷ [])
unfolding store_events insert lookup text_eq
store_events-keeps_example =
    store_events-keeps dict_kv dict_kv-IsStore room (first_event ∷ second_event ∷ []) bunt
      bunt_filled refl refl ((e1-ne-e2, tt), (tt, tt))

-- The bounds of a period are written to the second.
noon_condition : created_condition dict_kv noon ≡ codes "{\"created\":\"2020-09-13T12:26:40Z\"}"
unfolding rfc3339
noon_condition = refl

get_event_history_lem_example :
    get_event_history dict_kv (some room) noon noon 1 5 bunt_filled
    ≡ ok (decode_all (as_history dict_kv) (window 1 5 (codes "e1" ∷ codes "e2" ∷ [])))
unfolding lookup text_eq
get_event_history_lem_example =
    get_event_history_lem dict_kv room noon noon 1 5 bunt_filled filled refl

abbrev asked : User
asked = record zero_user { id = codes "a1" }

abbrev ann_database : Dict Text
ann_database = (codes "user:a1", codes "ann") ∷ []

abbrev switch_on : List TagUpdate
switch_on =
    record { name = codes "light"; type = pos 0; index = pos 0; expression = codes "x" } ∷ []

abbrev switched : User
switched = record asked { nick = codes "ann"; tags = some ((codes "light", codes "on") ∷ []) }

update_user_tags-IsTagged_example :
    IsTagged dict_kv dict_kv-IsStore example_lib asked switch_on ann_database switched
      (true ∷ [])
      ann_database
unfolding update_user_tags update_tags lookup insert text_eq
update_user_tags-IsTagged_example =
    update_user_tags-IsTagged dict_kv dict_kv-IsStore example_lib asked switched switch_on
      (true ∷ []) ann_database ann_database refl

abbrev ann_bunt : Bunt dict_kv
ann_bunt = record { db = ann_database; room_dbs = [] }

change_user_tags-IsTagged_example :
    IsTagged dict_kv dict_kv-IsStore example_lib asked switch_on ann_database switched
      (true ∷ [])
      ann_database
unfolding change_user_tags update_user_tags update_tags lookup insert text_eq
change_user_tags-IsTagged_example =
    change_user_tags-IsTagged dict_kv dict_kv-IsStore example_lib (codes "a1") switch_on switched
      (true ∷ []) ann_bunt ann_bunt refl
