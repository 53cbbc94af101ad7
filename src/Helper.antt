-- ===== src/Helper.antt =====
-- The functions that a plugin calls on the main program (plugins/helper.go), which are set while there
-- is a connection. The lock is left out: each operation holds it to its end, and a call takes the
-- function before it lets go of it.
pub mod Current
use lightspeed_chat.Base.{Text, Option, none, some, List, [], ◌∷◌, Run, returns}
use lightspeed_chat.Types.{User, Room, TagUpdate}
use lightspeed_chat.Grpc.{Events}
use lightspeed_chat.Grpc.TagChanges.{Changer}
use lightspeed_chat.Grpc.Streams.{EmitEventsHelper}

-- `HelperFunctionsType`
pub record HelperFunctions : Type 0 where
  pub impl_emit_events : Option (Events → Run (Option (Unit {0})))
  pub impl_get_room : Option (Text → Run (Option (Option Room)))
  pub impl_get_user : Option (Text → Run (Option (Option User)))
  pub impl_authenticate_user : Option (Text → Text → Run (Option (Option User)))
  pub impl_change_room_tags : Option (Changer TagUpdate (Option Room))
  pub impl_change_user_tags : Option (Changer TagUpdate (Option User))

-- `Clear`, and the zero value.
unfoldable pub clear : HelperFunctions → HelperFunctions
clear h = record {
  impl_emit_events = none;
  impl_get_room = none;
  impl_get_user = none;
  impl_authenticate_user = none;
  impl_change_room_tags = none;
  impl_change_user_tags = none;
}

-- `Set`
unfoldable pub set_helper : EmitEventsHelper → HelperFunctions → HelperFunctions
set_helper eh h = record {
  impl_emit_events = some eh.emit_events;
  impl_get_room = some eh.get_room;
  impl_get_user = some eh.get_user;
  impl_authenticate_user = some eh.authenticate_user;
  impl_change_room_tags = some eh.change_room_tags;
  impl_change_user_tags = some eh.change_user_tags;
}

-- The error "lost connection".
abbrev pub or_lost : {F A : Type 0} → Option F → (F → Run (Option A)) → Run (Option A)
or_lost none call = returns none
or_lost (some f) call = call f

unfoldable pub emit_events : HelperFunctions → Events → Run (Option (Unit {0}))
emit_events h events = or_lost h.impl_emit_events (λ f. f events)

unfoldable pub get_room : HelperFunctions → Text → Run (Option (Option Room))
get_room h room_id = or_lost h.impl_get_room (λ f. f room_id)

unfoldable pub get_user : HelperFunctions → Text → Run (Option (Option User))
get_user h user_id = or_lost h.impl_get_user (λ f. f user_id)

unfoldable pub authenticate_user : HelperFunctions → Text → Text → Run (Option (Option User))
authenticate_user h token provider = or_lost h.impl_authenticate_user (λ f. f token provider)

unfoldable pub change_room_tags : HelperFunctions → Changer TagUpdate (Option Room)
change_room_tags h room_id updates = or_lost h.impl_change_room_tags (λ f. f room_id updates)

unfoldable pub change_user_tags : HelperFunctions → Changer TagUpdate (Option User)
change_user_tags h user_id updates = or_lost h.impl_change_user_tags (λ f. f user_id updates)
