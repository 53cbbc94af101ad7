-- ===== src/Grpc/Streams.antt =====
-- Configure and InitEmitEvents of plugins/grpc.go, on both sides, and the helper that a plugin calls back
-- through (EmitEventsHelper of plugins/hub.go). encoding/json, the broker and the connection are
-- parameters.
use lightspeed_chat.Base.{Text, Option, none, some, Run, returns, ◌>>=◌}
use lightspeed_chat.Types.{User, Room, TagUpdate}
use lightspeed_chat.Grpc.{
  ProtoUser, ProtoRoom, Events, ProtoEvents, room_native2_proto, room_proto2_native,
}
use lightspeed_chat.Grpc.TagChanges.{
  ProtoTagUpdate, Changer, client_change_user_tags, client_change_room_tags,
  server_change_user_tags, server_change_room_tags,
}
use lightspeed_chat.Grpc.Client
use lightspeed_chat.Grpc.Server

-- `EmitEventsHelper`; an error is none, and a result may be a nil pointer.
pub record EmitEventsHelper : Type 0 where
  pub emit_events : Events → Run (Option (Unit {0}))
  pub authenticate_user : Text → Text → Run (Option (Option User))
  pub get_user : Text → Run (Option (Option User))
  pub get_room : Text → Run (Option (Option Room))
  pub change_user_tags : Changer TagUpdate (Option User)
  pub change_room_tags : Changer TagUpdate (Option Room)

-- The service that it is called through.
pub record HelperService : Type 0 where
  pub emit_events : ProtoEvents → Run (Option (Unit {0}))
  pub authenticate_user : Text → Text → Run (Option (Option ProtoUser))
  pub get_user : Text → Run (Option (Option ProtoUser))
  pub get_room : Text → Run (Option (Option ProtoRoom))
  pub change_user_tags : Changer ProtoTagUpdate (Option ProtoUser)
  pub change_room_tags : Changer ProtoTagUpdate (Option ProtoRoom)

abbrev pub by_pointer : {A : Type 0} → Run (Option A) → Run (Option (Option A))
by_pointer m = m >>= λ o. elim o [ none ↦ returns none | some a ↦ returns (some (some a)) ]

abbrev pub by_pointers : {A B : Type 0} → Run (Option (A × B)) → Run (Option (Option A × B))
by_pointers m = m >>= λ o. elim o [ none ↦ returns none | some r ↦ returns (some (some r.0, r.1)) ]

-- `GRPCEmitEventsHelperServer`
abbrev pub served : EmitEventsHelper → HelperService
served impl = record {
  emit_events = Server.emit_events impl.emit_events;
  authenticate_user = λ id_token provider.
      by_pointer (Server.authenticate_user impl.authenticate_user id_token provider);
  get_user = λ user_id. by_pointer (Server.get_user impl.get_user user_id);
  get_room = λ room_id. by_pointer (Server.get_room impl.get_room room_id);
  change_user_tags = server_change_user_tags impl.change_user_tags;
  change_room_tags = server_change_room_tags impl.change_room_tags;
}

-- `GRPCEmitEventsHelperClient`
abbrev pub dialed : HelperService → EmitEventsHelper
dialed service = record {
  emit_events = Client.emit_events service.emit_events;
  authenticate_user = λ id_token provider.
      by_pointer (Client.authenticate_user service.authenticate_user id_token provider);
  get_user = λ user_id. by_pointer (Client.get_user service.get_user user_id);
  get_room = λ room_id. by_pointer (Client.get_room service.get_room room_id);
  change_user_tags = λ user_id updates.
      by_pointers (client_change_user_tags service.change_user_tags user_id updates);
  change_room_tags = λ room_id updates.
      by_pointers (client_change_room_tags service.change_room_tags room_id updates);
}

-- `GRPCClient.InitEmitEvents`; `call` gets the service under the broker's identity.
unfoldable pub client_init_emit_events :
    (HelperService → Option ProtoRoom → Run (Option (Unit {0})))
    → Option Room
    → EmitEventsHelper
    → Run (Option (Unit {0}))
client_init_emit_events call room helper = do
  request ← room_native2_proto room
  call (served helper) (some request)

-- `GRPCServer.InitEmitEvents`; `service` is what the broker dials, none for an error.
unfoldable pub server_init_emit_events :
    (Option Room → EmitEventsHelper → Run (Option (Unit {0})))
    → Option HelperService
    → Option ProtoRoom
    → Run (Option (Unit {0}))
server_init_emit_events impl none request = returns none
server_init_emit_events impl (some service) request = do
  room ← room_proto2_native request
  impl (some room) (dialed service)

-- `GRPCClient.Configure` and `GRPCServer.Configure`, where `encode` and `decode` are those of JSON.
module _ {V : Type 0} where
  unfoldable pub client_configure :
      (V → Option Text) → (Text → Run (Option (Text × Text))) → V → Run (Option (Text × Text))
  client_configure encode call val = elim (encode val) [
    | none ↦ returns none
    | some data_bytes ↦ call data_bytes
  ]

  unfoldable pub server_configure :
      (Text → Option V) → (V → Run (Option (Text × Text))) → Text → Run (Option (Text × Text))
  server_configure decode impl data_bytes = elim (decode data_bytes) [
    | none ↦ returns none
    | some val ↦ impl val
  ]
