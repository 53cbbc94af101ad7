-- ===== src/Grpc/Connection.antt =====
-- What gRPC documents of a connection that carries the events of plugins/grpc.go: it delivers a message whose
-- texts are UTF-8, with an empty map as a nil one, and reports an error for any other.
use lightspeed_chat.Base.{◌≡◌, ap, Option, none, some, [], ◌∷◌, map, Run, returns, ◌>>=◌}
use lightspeed_chat.Types.{Tags, User, Room, Source, Event}
use lightspeed_chat.Grpc.{
  ProtoUser, ProtoRoom, ProtoSource, ProtoEvent, ProtoEvents, event_proto2_native,
  room_proto2_native, user_proto2_native,
}
use lightspeed_chat.Grpc.RoundTrip.{seen, map_some}

-- An empty map arrives as a nil map.
abbrev pub or_nil : Option Tags → Option Tags
or_nil none = none
or_nil (some []) = none
or_nil (some (tag ∷ tags)) = some (tag ∷ tags)

abbrev pub arrive_user : ProtoUser → ProtoUser
arrive_user u = record u { tags = or_nil u.tags }

abbrev pub arrive_room : ProtoRoom → ProtoRoom
arrive_room r = record r { owner = map_some arrive_user r.owner; tags = or_nil r.tags }

abbrev pub arrive_source : ProtoSource → ProtoSource
arrive_source s = record s { user = map_some arrive_user s.user }

abbrev pub arrive : ProtoEvent → ProtoEvent
arrive p = record p {
  room = map_some arrive_room p.room;
  source = map_some arrive_source p.source;
  tags = or_nil p.tags;
}

-- Each call has a message there, of which `IsUtf8` says that its texts are UTF-8, and one back.
pub record Connection : Type 1 where
  pub IsUtf8 : ProtoEvents → Type 0
  pub carry : ProtoEvents → Option ProtoEvents
  pub carry-arrive : (ps : ProtoEvents) → IsUtf8 ps → carry ps ≡ some (map (map_some arrive) ps)

-- A call over a connection to what answers it.
abbrev pub over :
    Connection → (ProtoEvents → Run (Option ProtoEvents)) → ProtoEvents → Run (Option ProtoEvents)
over connection server request = elim (connection.carry request) [
  | none ↦ returns none
  | some arrived ↦ do
    answer ← server arrived
    returns (elim answer [ none ↦ none | some reply ↦ connection.carry reply ])
]

abbrev nil_user : User → User
nil_user u = record u { tags = or_nil u.tags }

abbrev nil_room : Room → Room
nil_room r = record r { owner = map_some nil_user r.owner; tags = or_nil r.tags }

abbrev nil_source : Source → Source
nil_source s = record s { user = map_some nil_user s.user }

-- The event with a nil map for each empty one.
abbrev pub nil_event : Event → Event
nil_event e = record e {
  room = map_some nil_room e.room;
  source = map_some nil_source e.source;
  tags = or_nil e.tags;
}

-- The event as it arrives on the other side.
abbrev pub received : Event → Event
received e = nil_event (seen e)

-- The conversion of what arrives is that of the message, with nil maps.
pub arrive_lem :
    (p : ProtoEvent) (e : Event)
    → event_proto2_native (some p) ≡ returns e
    → event_proto2_native (some (arrive p)) ≡ returns (nil_event e)
unfolding event_proto2_native room_proto2_native user_proto2_native
arrive_lem p e = by_parts p.room p.source
  where
    Arrives : ProtoEvent → Type 0
    Arrives p =
        event_proto2_native (some p) ≡ returns e
        → event_proto2_native (some (arrive p)) ≡ returns (nil_event e)

    by_users :
        (r : ProtoRoom) (s : ProtoSource) (owner user : Option ProtoUser)
        → Arrives (record p {
          room = some (record r { owner = owner });
          source = some (record s { user = user });
        })
    by_users r s none user h = cc h
    by_users r s (some owner) none h = cc h
    by_users r s (some owner) (some user) h = ap (λ m. m >>= λ x. returns (nil_event x)) h

    by_parts :
        (room : Option ProtoRoom) (source : Option ProtoSource)
        → Arrives (record p { room = room; source = source })
    by_parts none source h = cc h
    by_parts (some r) none h = by_owner r.owner h
      where
        by_owner :
            (owner : Option ProtoUser)
            → Arrives (record p { room = some (record r { owner = owner }); source = none })
        by_owner none h = cc h
        by_owner (some owner) h = cc h
    by_parts (some r) (some s) h = by_users r s r.owner s.user h
