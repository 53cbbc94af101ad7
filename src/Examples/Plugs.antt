-- ===== src/Examples/Plugs.antt =====
-- The theorems on the plugins' protocol and on the base commands, at concrete events (plugins/).
use lightspeed_chat.Base.{
  pos, negsuc, codes, true, ◌≡◌, refl, Option, some, [], ◌∷◌, map, Run, returns, All, Ensures,
  arith,
}
use lightspeed_chat.Types.{Event, new_event, TagUpdate}
use lightspeed_chat.Types.EventType
use lightspeed_chat.Grpc.{Events}
use lightspeed_chat.Grpc.Client
use lightspeed_chat.Grpc.Server
use lightspeed_chat.Grpc.RoundTrip.{map_some}
use lightspeed_chat.Grpc.Transparent.{pointers}
use lightspeed_chat.Grpc.TagChanges.{
  ProtoUpdates, tag_updates_native2_proto, tag_updates_proto2_native,
}
use lightspeed_chat.Grpc.TagChanges.Passing.{tag_updates_round_trip}
use lightspeed_chat.Grpc.Connection.{Connection, arrive}
use lightspeed_chat.BaseCommands.{handle_events}
use lightspeed_chat.BaseCommands.Replies.{IsReply, handle_events-IsReply}
use lightspeed_chat.Examples.{chat_event, room, by_ann, stamp}

abbrev hello : Event
hello = chat_event

-- A plugin that answers with a greeting.
abbrev greet : Events → Run (Option Events)
greet given = returns (some (pointers (hello ∷ [])))

-- A connection on which all texts are UTF-8.
abbrev plain : Connection
plain = record {
  IsUtf8 = λ ps. Unit;
  carry = λ ps. some (map (map_some arrive) ps);
  carry-arrive = λ ps _. refl;
}

abbrev whisper : Event
whisper = new_event stamp (some room) (some by_ann) [] (codes "en") EventType.command (
    some (
      (codes "command", codes "/to")
      ∷ (codes "args", codes "bob hi")
      ∷ (codes "message", codes "/to bob hi")
      ∷ []))

handle_events-IsReply_example :
    Ensures (All IsReply) (handle_events (λ r. true) stamp (hello ∷ whisper ∷ []))
handle_events-IsReply_example = handle_events-IsReply (λ r. true) stamp (hello ∷ whisper ∷ [])

abbrev bump : TagUpdate
bump = record { name = codes "b"; type = pos 4; index = negsuc 0; expression = codes "x" }

tag_updates_round_trip_example :
    (request : ProtoUpdates) × (tag_updates_native2_proto (some bump ∷ []) ≡ returns request)
    × (tag_updates_proto2_native request ≡ returns (some bump ∷ []))
tag_updates_round_trip_example = tag_updates_round_trip (bump ∷ []) (omega arith, tt)
