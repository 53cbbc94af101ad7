-- ===== src/Types.antt =====
-- The shared data of package types: types/user.go, types/room.go, types/event.go, types/tags.go and
-- types/message.go. A pointer or map that may be nil is an `Option`. The columns that only the
-- database layer reads (CreatedAt, UpdatedAt, DeletedAt) and the fields of Room that no code uses
-- are left out.
pub mod EventType
pub mod Complete
pub mod StringMap
use lightspeed_chat.Base.{
  ℕ, zero, suc, ◌+◌, ◌/◌, ◌%◌, ℤ, negsuc, Text, Dict, Bool, false, Option, none, some, List, [],
  ◌∷◌, ◌++◌, ltb, if◌then◌else◌,
}

pub data Zone : Type 0 where
  utc local : Zone

-- `time.Time`: seconds since 1970, the nanoseconds within the second, and the location.
pub record Time : Type 0 where
  pub unix : ℤ
  pub nanosecond : ℕ
  pub zone : Zone

-- `time.Time{}`, the first of January of year 1.
abbrev pub zero_time : Time
zero_time = record { unix = negsuc 62135596799; nanosecond = 0; zone = utc }

-- `t.In(time.UTC)`
abbrev pub in_utc : Time → Time
in_utc t = record t { zone = utc }

abbrev pub Tags : Type 0
Tags = Dict Text

pub record User : Type 0 where
  pub id : Text
  pub nick : Text
  pub language : Text
  pub tags : Option Tags
  pub last_online : Time

abbrev pub zero_user : User
zero_user = record { id = []; nick = []; language = []; tags = none; last_online = zero_time }

pub record Room : Type 0 where
  pub id : Text
  pub owner_id : Text
  pub owner : Option User
  pub tags : Option Tags

abbrev pub zero_room : Room
zero_room = record { id = []; owner_id = []; owner = none; tags = none }

pub record Source : Type 0 where
  pub user_id : Text
  pub user : Option User
  pub plugin_name : Text

abbrev pub zero_source : Source
zero_source = record { user_id = []; user = none; plugin_name = [] }

pub record Event : Type 0 where
  pub id : Text
  pub room_id : Text
  pub room : Option Room
  pub source : Option Source
  pub created : Time
  pub language : Text
  pub name : Text
  pub tags : Option Tags
  pub history : Bool
  pub sent : Time
  pub target_filter : Text

pub record TagUpdate : Type 0 where
  pub name : Text
  pub type : ℤ
  pub index : ℤ
  pub expression : Text

-- The last `width` digits of a number in hexadecimal, for `%016X`.
hex_digit : ℕ → ℕ
hex_digit d = if ltb d 10 then 48 + d else 55 + d

hex : ℕ → ℕ → Text
unfolding hex_digit
hex zero n = []
hex (suc width) n = hex width (n / 16) ++ (hex_digit (n % 16) ∷ [])

-- What `NewEvent` puts in place of nil.
abbrev pub or_new {ℓ} : {A : Type ℓ} → Option A → A → A
or_new none d = d
or_new (some a) d = a

unfoldable pub fill_user : User → User
fill_user u = record u { tags = some (or_new u.tags []); last_online = in_utc u.last_online }

unfoldable pub fill_owner : User → User
fill_owner u = record u { tags = some (or_new u.tags []) }

unfoldable pub fill_source : Option Source → Source
unfolding fill_user
fill_source source =
    let s = or_new source zero_source in
    record s { user = some (fill_user (or_new s.user zero_user)) }

unfoldable pub fill_room : Option Room → Room
unfolding fill_owner
fill_room room =
    let r = or_new room zero_room in
    record r {
      owner = some (fill_owner (or_new r.owner zero_user));
      tags = some (or_new r.tags []);
    }

-- What the code outside the repository and the clock contribute to an event: the time, and the
-- 64-bit hash of the new event, `none` if `hashstructure.Hash` fails.
pub record Stamp : Type 0 where
  pub now : Time
  pub hash : Event → Option ℕ

unfoldable pub event_id : Option ℕ → Text
unfolding hex
event_id none = []
event_id (some h) = hex 16 h

-- The nil receivers that `NewEvent` fills in are shared with the caller: the room and the source of
-- the result are what the caller's room and source have become.
unfoldable pub new_event :
    Stamp → Option Room → Option Source → Text → Text → Text → Option Tags → Event
unfolding fill_source fill_room event_id
new_event st room source target_filter language name tags =
    let evt : Event = record {
      id = [];
      room_id = [];
      room = some (fill_room room);
      source = some (fill_source source);
      created = in_utc st.now;
      language = language;
      name = name;
      tags = some (or_new tags []);
      history = false;
      sent = zero_time;
      target_filter = target_filter;
    } in
    record evt { id = event_id (st.hash evt) }
