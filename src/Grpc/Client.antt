-- ===== src/Grpc/Client.antt =====
-- The calling sides of plugins/grpc.go, GRPCClient and GRPCEmitEventsHelperClient: `call` stands for the
-- connection and what answers on it.
use lightspeed_chat.Base.{Text, Option, some, Run, returns, ◌>>=◌}
use lightspeed_chat.Types.{User, Room}
use lightspeed_chat.Grpc.{
  ProtoUser, ProtoRoom, Events, ProtoEvents, or_error, user_proto2_native, room_native2_proto,
  room_proto2_native, event_native2_proto, event_proto2_native, each,
}

-- `GRPCClient.HandleEvents`
unfoldable pub handle_events :
    (ProtoEvents → Run (Option ProtoEvents)) → Events → Run (Option Events)
handle_events call events = do
  request ← each event_native2_proto events
  or_error (call request) (each event_proto2_native)

-- `GRPCClient.Cron`
unfoldable pub cron :
    (Option ProtoRoom → Run (Option ProtoEvents)) → Option Room → Run (Option Events)
cron call room = do
  request ← room_native2_proto room
  or_error (call (some request)) (each event_proto2_native)

-- `GRPCEmitEventsHelperClient.EmitEvents`
unfoldable pub emit_events :
    (ProtoEvents → Run (Option (Unit {0}))) → Events → Run (Option (Unit {0}))
emit_events call events = do
  request ← each event_native2_proto events
  or_error (call request) (λ _. returns tt)

-- `GRPCEmitEventsHelperClient.AuthenticateUser`
unfoldable pub authenticate_user :
    (Text → Text → Run (Option (Option ProtoUser))) → Text → Text → Run (Option User)
authenticate_user call id_token provider = or_error (call id_token provider) user_proto2_native

-- `GRPCEmitEventsHelperClient.GetUser` and `GRPCEmitEventsHelperClient.GetRoom`
unfoldable pub get_user : (Text → Run (Option (Option ProtoUser))) → Text → Run (Option User)
get_user call user_id = or_error (call user_id) user_proto2_native

unfoldable pub get_room : (Text → Run (Option (Option ProtoRoom))) → Text → Run (Option Room)
get_room call room_id = or_error (call room_id) room_proto2_native
