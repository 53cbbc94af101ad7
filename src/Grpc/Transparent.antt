-- ===== src/Grpc/Transparent.antt =====
-- A plugin behind gRPC (plugins/grpc.go): GRPCClient.HandleEvents against GRPCServer.HandleEvents.
use lightspeed_chat.Base.{◌≡◌, Option, none, some, List, map, returns, All}
use lightspeed_chat.Types.{Event}
use lightspeed_chat.Types.Complete.{IsComplete}
use lightspeed_chat.Grpc.{Events, ProtoEvents, event_native2_proto, each}
use lightspeed_chat.Grpc.Connection.{Connection}
use lightspeed_chat.Grpc.Client
use lightspeed_chat.Grpc.Server

abbrev pub pointers : List Event → Events
pointers = map some

abbrev pub result {ℓ} : {A B : Type ℓ} → (A → B) → Option A → Option B
result f none = none
result f (some a) = some (f a)

-- An error, or events without nil pointer.
abbrev pub IsWhole : Option (List Event) → Type 0
IsWhole none = Unit
IsWhole (some out) = All IsComplete out

-- The messages that the events become can be sent.
abbrev pub CanSend : Connection → List Event → Type 0
CanSend connection events =
    (ps : ProtoEvents)
    → each event_native2_proto (pointers events) ≡ returns ps
    → connection.IsUtf8 ps

-- Events or an error that can be sent.
abbrev pub CanAnswer : Connection → Option (List Event) → Type 0
CanAnswer connection none = Unit
CanAnswer connection (some out) = CanSend connection out
