-- ===== src/Helper/Current.antt =====
-- The functions of plugins/helper.go are those of one helper, the one that was set last.
use lightspeed_chat.Base.{Text, ◌≡◌, refl, Option, none, some, List, [], ◌∷◌}
use lightspeed_chat.Types.{TagUpdate}
use lightspeed_chat.Grpc.{Events}
use lightspeed_chat.Grpc.Streams.{EmitEventsHelper}
use lightspeed_chat.Helper.{
  HelperFunctions, clear, set_helper, or_lost, emit_events, get_room, get_user, authenticate_user,
  change_room_tags, change_user_tags,
}

-- What happens to the connection.
pub data Change : Type 0 where
  connects : EmitEventsHelper → Change
  drops : Change

abbrev pub change : Change → HelperFunctions → HelperFunctions
change (connects eh) h = set_helper eh h
change drops h = clear h

abbrev pub changes : List Change → HelperFunctions → HelperFunctions
changes [] h = h
changes (c ∷ cs) h = changes cs (change c h)

-- The helper that is there after the changes, the last of them last.
abbrev pub current : List Change → Option EmitEventsHelper → Option EmitEventsHelper
current [] now = now
current (connects eh ∷ cs) now = current cs (some eh)
current (drops ∷ cs) now = current cs none

-- Every call goes to the one helper, or is answered with the error where there is none.
pub record IsOf (now : Option EmitEventsHelper) (h : HelperFunctions) : Type 0 where
  pub emits : (events : Events) → emit_events h events ≡ or_lost now (λ eh. eh.emit_events events)
  pub finds_room : (id : Text) → get_room h id ≡ or_lost now (λ eh. eh.get_room id)
  pub finds_user : (id : Text) → get_user h id ≡ or_lost now (λ eh. eh.get_user id)
  pub authenticates :
      (token provider : Text)
      → authenticate_user h token provider ≡ or_lost now (λ eh. eh.authenticate_user token provider)
  pub tags_room :
      (id : Text) (updates : List (Option TagUpdate))
      → change_room_tags h id updates ≡ or_lost now (λ eh. eh.change_room_tags id updates)
  pub tags_user :
      (id : Text) (updates : List (Option TagUpdate))
      → change_user_tags h id updates ≡ or_lost now (λ eh. eh.change_user_tags id updates)

set_helper-IsOf : (eh : EmitEventsHelper) (h : HelperFunctions) → IsOf (some eh) (set_helper eh h)
unfolding set_helper emit_events get_room get_user authenticate_user change_room_tags
    change_user_tags
set_helper-IsOf eh h = record {
  emits = λ events. refl;
  finds_room = λ id. refl;
  finds_user = λ id. refl;
  authenticates = λ token provider. refl;
  tags_room = λ id updates. refl;
  tags_user = λ id updates. refl;
}

clear-IsOf : (h : HelperFunctions) → IsOf none (clear h)
unfolding clear emit_events get_room get_user authenticate_user change_room_tags change_user_tags
clear-IsOf h = record {
  emits = λ events. refl;
  finds_room = λ id. refl;
  finds_user = λ id. refl;
  authenticates = λ token provider. refl;
  tags_room = λ id updates. refl;
  tags_user = λ id updates. refl;
}

changes-IsOf :
    (cs : List Change) (now : Option EmitEventsHelper) (h : HelperFunctions)
    → IsOf now h
    → IsOf (current cs now) (changes cs h)
changes-IsOf [] now h is = is
changes-IsOf (connects eh ∷ cs) now h is =
    changes-IsOf cs (some eh) (set_helper eh h) (set_helper-IsOf eh h)
changes-IsOf (drops ∷ cs) now h is = changes-IsOf cs none (clear h) (clear-IsOf h)

-- Whatever connections came and went, all functions of a plugin's helper call the helper of the
-- connection that was set last, or all return the error if it was cleared since or none was set.
pub changes-IsCurrent :
    (cs : List Change) (h : HelperFunctions) → IsOf (current cs none) (changes cs (clear h))
changes-IsCurrent cs h = changes-IsOf cs none (clear h) (clear-IsOf h)
