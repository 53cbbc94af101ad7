-- ===== src/Grpc/Server.antt =====
-- The answering sides of plugins/grpc.go, GRPCServer and GRPCEmitEventsHelperServer.
use lightspeed_chat.Base.{Text, Option, some, Run, returns, ◌>>=◌}
use lightspeed_chat.Types.{User, Room}
use lightspeed_chat.Grpc.{
  ProtoUser, ProtoRoom, Events, ProtoEvents, or_error, user_native2_proto, room_native2_proto,
  room_proto2_native, event_native2_proto, event_proto2_native, each,
}

-- `GRPCServer.HandleEvents`
unfoldable pub handle_events :
    (Events → Run (Option Events)) → ProtoEvents → Run (Option ProtoEvents)
handle_events impl request = do
  events ← each event_proto2_native request
  or_error (impl events) (each event_native2_proto)

-- `GRPCServer.Cron`
unfoldable pub cron :
    (Option Room → Run (Option Events)) → Option ProtoRoom → Run (Option ProtoEvents)
cron impl request = do
  room ← room_proto2_native request
  or_error (impl (some room)) (each event_native2_proto)

-- `GRPCEmitEventsHelperServer.EmitEvents`
unfoldable pub emit_events :
    (Events → Run (Option (Unit {0}))) → ProtoEvents → Run (Option (Unit {0}))
emit_events impl request = do
  events ← each event_proto2_native request
  or_error (impl events) (λ _. returns tt)

-- `GRPCEmitEventsHelperServer.AuthenticateUser`
unfoldable pub authenticate_user :
    (Text → Text → Run (Option (Option User))) → Text → Text → Run (Option ProtoUser)
authenticate_user impl id_token provider = or_error (impl id_token provider) user_native2_proto

-- `GRPCEmitEventsHelperServer.GetUser` and `GRPCEmitEventsHelperServer.GetRoom`
unfoldable pub get_user : (Text → Run (Option (Option User))) → Text → Run (Option ProtoUser)
get_user impl user_id = or_error (impl user_id) user_native2_proto

unfoldable pub get_room : (Text → Run (Option (Option Room))) → Text → Run (Option ProtoRoom)
get_room impl room_id = or_error (impl room_id) room_native2_proto
