-- ===== src/Grpc/TagChanges.antt =====
-- Changes of tags through gRPC: the conversions of tag updates, and ChangeUserTags and ChangeRoomTags of
-- both sides (plugins/grpc.go).
pub mod Passing
use lightspeed_chat.Base.{
  ℕ, ℤ, pos, negsuc, ◌-◌, ◌%◌, ◌^◌, ltb, if◌then◌else◌, Text, Bool, Option, none, some, List, Run,
  returns, ◌>>=◌,
}
use lightspeed_chat.Types.{TagUpdate, User, Room}
use lightspeed_chat.Delivery.{deref}
use lightspeed_chat.Grpc.{
  ProtoUser, ProtoRoom, each, or_error, user_native2_proto, user_proto2_native, room_native2_proto,
  room_proto2_native,
}

pub record ProtoTagUpdate : Type 0 where
  pub name : Text
  pub type : ℤ
  pub index : ℤ
  pub expression : Text

-- The low 32 bits in two's complement.
abbrev pub low_bits : ℤ → ℕ
low_bits (pos n) = n % 2 ^ 32
low_bits (negsuc n) = 2 ^ 32 - 1 - n % 2 ^ 32

-- `int32(v)`
unfoldable pub to_int32 : ℤ → ℤ
to_int32 v = let b = low_bits v in if ltb b (2 ^ 31) then pos b else negsuc (2 ^ 32 - 1 - b)

-- The rounds of `tagUpdatesNative2Proto` and `tagUpdatesProto2Native`. An int has 64 bits.
unfoldable pub update_to_proto : Option TagUpdate → Run ProtoTagUpdate
unfolding to_int32
update_to_proto update = do
  u ← deref update
  returns
      (record { name = u.name; type = to_int32 u.type; index = u.index; expression = u.expression })

unfoldable pub update_to_native : Option ProtoTagUpdate → Run TagUpdate
update_to_native update = do
  u ← deref update
  returns (record { name = u.name; type = u.type; index = u.index; expression = u.expression })

abbrev pub Updates : Type 0
Updates = List (Option TagUpdate)

abbrev pub ProtoUpdates : Type 0
ProtoUpdates = List (Option ProtoTagUpdate)

unfoldable pub tag_updates_native2_proto : Updates → Run ProtoUpdates
tag_updates_native2_proto = each update_to_proto

unfoldable pub tag_updates_proto2_native : ProtoUpdates → Run Updates
tag_updates_proto2_native = each update_to_native

abbrev pub with_oks : {A B : Type 0} → (A → Run B) → A × List Bool → Run (B × List Bool)
with_oks f (a, oks) = do b ← f a; returns (b, oks)

-- What answers a change, for users or rooms; `none` for an error.
abbrev pub Changer : Type 0 → Type 0 → Type 0
Changer U A = Text → List (Option U) → Run (Option (A × List Bool))

-- `GRPCEmitEventsHelperClient.ChangeUserTags` and `GRPCEmitEventsHelperClient.ChangeRoomTags`
unfoldable pub client_change_user_tags :
    Changer ProtoTagUpdate (Option ProtoUser) → Changer TagUpdate User
unfolding tag_updates_native2_proto
client_change_user_tags call user_id updates = do
  request ← tag_updates_native2_proto updates
  or_error (call user_id request) (with_oks user_proto2_native)

unfoldable pub client_change_room_tags :
    Changer ProtoTagUpdate (Option ProtoRoom) → Changer TagUpdate Room
unfolding tag_updates_native2_proto
client_change_room_tags call room_id updates = do
  request ← tag_updates_native2_proto updates
  or_error (call room_id request) (with_oks room_proto2_native)

abbrev pub as_pointer : {A : Type 0} → Run A → Run (Option A)
as_pointer m = do a ← m; returns (some a)

-- `GRPCEmitEventsHelperServer.ChangeUserTags` and `GRPCEmitEventsHelperServer.ChangeRoomTags`
unfoldable pub server_change_user_tags :
    Changer TagUpdate (Option User) → Changer ProtoTagUpdate (Option ProtoUser)
unfolding tag_updates_proto2_native
server_change_user_tags impl user_id request = do
  updates ← tag_updates_proto2_native request
  or_error (impl user_id updates) (with_oks (λ user. as_pointer (user_native2_proto user)))

unfoldable pub server_change_room_tags :
    Changer TagUpdate (Option Room) → Changer ProtoTagUpdate (Option ProtoRoom)
unfolding tag_updates_proto2_native
server_change_room_tags impl room_id request = do
  updates ← tag_updates_proto2_native request
  or_error (impl room_id updates) (with_oks (λ room. as_pointer (room_native2_proto room)))
