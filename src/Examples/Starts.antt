-- ===== src/Examples/Starts.antt =====
-- The theorems on the start of the server and on the helper of a plugin (cmd/lightspeed-chat/main.go,
-- persistence/, plugins/helper.go).
use lightspeed_chat.Base.{
  codes, true, ◌≡◌, refl, none, some, List, [], ◌∷◌, Ensures, Safely, returns, has_prefix, text_eq,
}
use lightspeed_chat.Sql.Tables.{Database, select_rooms}
use lightspeed_chat.Sql.Rooms.{get_rooms}
use lightspeed_chat.Startup.{start_rooms}
use lightspeed_chat.Startup.Kept.{sql_store, IsKept, start_rooms-IsKept}
use lightspeed_chat.Startup.Plugins.{plugin_name, base, last_part, without_slashes}
use lightspeed_chat.Bunt.Setup.{BuntConfig, AllOpen, new_bunt_persister, new_bunt_persister-AllOpen}
use lightspeed_chat.Grpc.Streams.{EmitEventsHelper}
use lightspeed_chat.Helper.{HelperFunctions, clear}
use lightspeed_chat.Types.{zero_user, zero_room}
use lightspeed_chat.Helper.Current.{
  Change, connects, drops, current, changes, IsOf, changes-IsCurrent,
}
use lightspeed_chat.Admin.{AdminJson, set_room}
use lightspeed_chat.Admin.Saved
use lightspeed_chat.Admin.Saved.{IsSaved, set_room-IsSaved}
use lightspeed_chat.Examples.{room, ann}
use lightspeed_chat.Examples.Stores.{dict_kv}
use lightspeed_chat.Examples.Databases.{tables_engine, tables_engine-IsSql}

abbrev no_tables : Database
no_tables = record { users = []; rooms = []; events = [] }

start_rooms-IsKept_example :
    Ensures
      (IsKept tables_engine tables_engine-IsSql (codes "a1"))
      (start_rooms (sql_store tables_engine) (codes "a1") no_tables)
unfolding select_rooms get_rooms
start_rooms-IsKept_example =
    start_rooms-IsKept tables_engine tables_engine-IsSql (codes "a1") no_tables refl

abbrev files : BuntConfig
files = record { global_name = codes "chat.db"; room_name_template = codes "room" }

new_bunt_persister-AllOpen_example :
    Ensures (AllOpen dict_kv (λ db. some ((codes "room:r", codes "r") ∷ db)) some (λ t. true)) (
      new_bunt_persister dict_kv
        (λ db. some ((codes "room:r", codes "r") ∷ db))
        some
        (λ t. true)
        files)
new_bunt_persister-AllOpen_example =
    new_bunt_persister-AllOpen dict_kv (λ db. some ((codes "room:r", codes "r") ∷ db)) some
      (λ t. true) files

abbrev helper_of_ann : EmitEventsHelper
helper_of_ann = record {
  emit_events = λ events. returns (some tt);
  authenticate_user = λ token provider. returns none;
  get_user = λ id. returns (some (some ann));
  get_room = λ id. returns (some (some room));
  change_user_tags = λ id updates. returns none;
  change_room_tags = λ id updates. returns none;
}

abbrev lost : HelperFunctions
lost = record {
  impl_emit_events = none;
  impl_get_room = none;
  impl_get_user = none;
  impl_authenticate_user = none;
  impl_change_room_tags = none;
  impl_change_user_tags = none;
}

abbrev reconnected : List Change
reconnected = connects helper_of_ann ∷ drops ∷ connects helper_of_ann ∷ []

changes-IsCurrent_example : IsOf (current reconnected none) (changes reconnected (clear lost))
changes-IsCurrent_example = changes-IsCurrent reconnected lost

name_of_path :
    plugin_name (λ s. s) (codes "bin/lightspeed-chat-base-commands-plugin/") ≡ codes "base-commands"
unfolding plugin_name base last_part without_slashes has_prefix text_eq
name_of_path = refl

abbrev admin_json : AdminJson
admin_json = record {
  marshal_rooms = λ rooms. some [];
  marshal_room = λ r. some r.id;
  marshal_users = λ users. some [];
  marshal_user = λ u. some u.id;
  decode_room = λ text. some (record zero_room { id = text });
  decode_user = λ text. some (record zero_user { id = text });
}

set_room-IsSaved_example :
    Safely
      (IsSaved tables_engine tables_engine-IsSql admin_json (codes "r") no_tables)
      (set_room (Saved.sql_store tables_engine) admin_json [] (codes "r") no_tables)
unfolding text_eq
set_room-IsSaved_example =
    set_room-IsSaved tables_engine tables_engine-IsSql admin_json [] (codes "r") no_tables
