-- ===== src/Grpc/RoundTrip.antt =====
-- What a trip through gRPC keeps of an event (plugins/grpc.go).
use lightspeed_chat.Base.{Option, none, some, []}
use lightspeed_chat.Types.{Time, User, Room, Source, Event}
use lightspeed_chat.Grpc.{from_unix}

-- A time to the second, in UTC.
abbrev pub to_second : Time → Time
to_second t = from_unix t.unix

abbrev pub seen_user : User → User
seen_user u = record u { last_online = to_second u.last_online }

abbrev pub map_some {ℓ} : {A : Type ℓ} → (A → A) → Option A → Option A
map_some f none = none
map_some f (some a) = some (f a)

abbrev pub seen_room : Room → Room
seen_room r = record r { owner_id = []; owner = map_some seen_user r.owner }

abbrev pub seen_source : Source → Source
seen_source s = record s { user_id = []; user = map_some seen_user s.user }

-- The event as the other side sees it: times to the second and in UTC, without the columns that only
-- the database reads.
abbrev pub seen : Event → Event
seen e = record e {
  room_id = [];
  room = map_some seen_room e.room;
  source = map_some seen_source e.source;
  created = to_second e.created;
  sent = to_second e.sent;
}
