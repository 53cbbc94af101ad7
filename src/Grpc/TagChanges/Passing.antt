-- ===== src/Grpc/TagChanges/Passing.antt =====
-- What a trip through gRPC keeps of tag updates (plugins/grpc.go).
use lightspeed_chat.Base.{
  ℤ, pos, negsuc, ◌<◌, ◌^◌, ◌≡◌, refl, some, List, [], ◌∷◌, map, All, returns, arith,
}
use lightspeed_chat.Types.{TagUpdate}
use lightspeed_chat.Grpc.TagChanges.{
  ProtoTagUpdate, to_int32, update_to_proto, update_to_native, tag_updates_native2_proto,
  tag_updates_proto2_native, ProtoUpdates,
}

abbrev pub IsInt32 : ℤ → Type 0
IsInt32 (pos n) = n < 2 ^ 31
IsInt32 (negsuc n) = n < 2 ^ 31

to_int32-IsInt32 : (v : ℤ) → IsInt32 v → to_int32 v ≡ v
unfolding to_int32
to_int32-IsInt32 (pos n) h = ground (arith, h)
to_int32-IsInt32 (negsuc n) h = ground (arith, h)

abbrev pub IsTyped : TagUpdate → Type 0
IsTyped u = IsInt32 u.type

update_round_trip :
    (u : TagUpdate)
    → IsTyped u
    → (p : ProtoTagUpdate) × (update_to_proto (some u) ≡ returns p)
      × (update_to_native (some p) ≡ returns u)
unfolding update_to_proto update_to_native
update_round_trip u h = (
  record { name = u.name; type = to_int32 u.type; index = u.index; expression = u.expression },
  refl,
  rw (to_int32-IsInt32 u.type h) refl,
)

-- Tag updates pass the conversions to the messages and back unchanged, in their order, where their types
-- are integers of 32 bits.
pub tag_updates_round_trip :
    (updates : List TagUpdate)
    → All IsTyped updates
    → (request : ProtoUpdates) × (tag_updates_native2_proto (map some updates) ≡ returns request)
      × (tag_updates_proto2_native request ≡ returns (map some updates))
unfolding tag_updates_native2_proto tag_updates_proto2_native
tag_updates_round_trip [] h = ([], refl, refl)
tag_updates_round_trip (u ∷ updates) h =
    let (rest, tos, backs) = tag_updates_round_trip updates h.1 in
    let (p, to, back) = update_round_trip u h.0 in
    (some p ∷ rest, rw (to, tos) refl, rw (back, backs) refl)
