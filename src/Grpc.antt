-- ===== src/Grpc.antt =====
-- The conversions between the program's data and the gRPC messages, and the calls that use them
-- (plugins/grpc.go). The message types are those of proto/message.proto; the generated code and the
-- connection are parameters.
pub mod RoundTrip
pub mod Connection
pub mod Client
pub mod Server
pub mod Transparent
pub mod TagChanges
pub mod Streams
use lightspeed_chat.Base.{ℤ, Text, Bool, Option, none, some, List, [], ◌∷◌, Run, returns, ◌>>=◌}
use lightspeed_chat.Types.{Tags, Time, utc, User, Room, Source, Event, zero_time}
use lightspeed_chat.Delivery.{deref}

pub record ProtoUser : Type 0 where
  pub id : Text
  pub nick : Text
  pub language : Text
  pub tags : Option Tags
  pub last_online : ℤ

pub record ProtoRoom : Type 0 where
  pub id : Text
  pub owner : Option ProtoUser
  pub tags : Option Tags

pub record ProtoSource : Type 0 where
  pub user : Option ProtoUser
  pub plugin_name : Text

pub record ProtoEvent : Type 0 where
  pub id : Text
  pub room : Option ProtoRoom
  pub source : Option ProtoSource
  pub created : ℤ
  pub language : Text
  pub name : Text
  pub tags : Option Tags
  pub sent : ℤ
  pub target_filter : Text
  pub history : Bool

-- `time.Unix(n, 0).In(time.UTC)`
abbrev pub from_unix : ℤ → Time
from_unix n = record { unix = n; nanosecond = 0; zone = utc }

-- The body of `userNative2Proto` and of `userProto2Native`, once the pointer is not nil.
abbrev pub user_to_proto : User → ProtoUser
user_to_proto u = record {
  id = u.id;
  nick = u.nick;
  language = u.language;
  tags = u.tags;
  last_online = u.last_online.unix;
}

abbrev pub user_to_native : ProtoUser → User
user_to_native u = record {
  id = u.id;
  nick = u.nick;
  language = u.language;
  tags = u.tags;
  last_online = from_unix u.last_online;
}

unfoldable pub user_native2_proto : Option User → Run ProtoUser
user_native2_proto user = do u ← deref user; returns (user_to_proto u)

unfoldable pub user_proto2_native : Option ProtoUser → Run User
user_proto2_native user = do u ← deref user; returns (user_to_native u)

unfoldable pub room_native2_proto : Option Room → Run ProtoRoom
unfolding user_native2_proto
room_native2_proto room = do
  r ← deref room
  owner ← user_native2_proto r.owner
  returns (record { id = r.id; owner = some owner; tags = r.tags })

unfoldable pub room_proto2_native : Option ProtoRoom → Run Room
unfolding user_proto2_native
room_proto2_native room = do
  r ← deref room
  owner ← user_proto2_native r.owner
  returns (record { id = r.id; owner_id = []; owner = some owner; tags = r.tags })

unfoldable pub event_native2_proto : Option Event → Run ProtoEvent
unfolding room_native2_proto user_native2_proto
event_native2_proto event = do
  e ← deref event
  room ← room_native2_proto e.room
  source ← deref e.source
  user ← user_native2_proto source.user
  returns (record {
    id = e.id;
    room = some room;
    source = some (record { user = some user; plugin_name = source.plugin_name });
    created = e.created.unix;
    language = e.language;
    name = e.name;
    tags = e.tags;
    sent = e.sent.unix;
    target_filter = e.target_filter;
    history = e.history;
  })

unfoldable pub event_proto2_native : Option ProtoEvent → Run Event
unfolding room_proto2_native user_proto2_native
event_proto2_native event = do
  e ← deref event
  room ← room_proto2_native e.room
  source ← deref e.source
  user ← user_proto2_native source.user
  returns (record {
    id = e.id;
    room_id = [];
    room = some room;
    source = some (record { user_id = []; user = some user; plugin_name = source.plugin_name });
    created = from_unix e.created;
    language = e.language;
    name = e.name;
    tags = e.tags;
    history = e.history;
    sent = from_unix e.sent;
    target_filter = e.target_filter;
  })

-- The loops that convert a slice.
abbrev pub each : {A B : Type 0} → (A → Run B) → List A → Run (List (Option B))
each f [] = returns []
each f (x ∷ xs) = do y ← f x; ys ← each f xs; returns (some y ∷ ys)

abbrev pub Events : Type 0
Events = List (Option Event)

abbrev pub ProtoEvents : Type 0
ProtoEvents = List (Option ProtoEvent)

-- `if err != nil { return nil, err }`
abbrev pub or_error : {A B : Type 0} → Run (Option A) → (A → Run B) → Run (Option B)
or_error m f = do
  result ← m
  elim result [ none ↦ returns none | some a ↦ do b ← f a; returns (some b) ]
