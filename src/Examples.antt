-- ===== src/Examples.antt =====
-- Concrete data at which the theorems are applied: stand-ins for the libraries, and a room with users,
-- events and plugins.
mod Sessions
mod Lives
mod Hubs
mod Stores
mod Plugs
mod Tokens
mod Databases
mod Loads
mod Translations
mod Starts
mod Pumps
use lightspeed_chat.Base.{
  ℕ, pos, Text, codes, Bool, true, false, ◌&&◌, Option, none, some, List, [], ◌∷◌, ◌++◌,
  if◌then◌else◌, text_eq, has_prefix,
}
use lightspeed_chat.Strings.{is_empty}
use lightspeed_chat.Types.{
  User, Room, Source, Event, Time, utc, Stamp, new_event, zero_user, TagUpdate,
}
use lightspeed_chat.Types.EventType
use lightspeed_chat.Filter.{ExprLib}

-- An expression compiles unless it is `bad`; it is a nick, and lets that user's client through.
abbrev pub example_lib : ExprLib
example_lib = record {
  Float = ℕ;
  Value = Bool;
  Program = Text;
  compile = λ t. if text_eq t (codes "bad") then none else some t;
  run = λ p env. some (text_eq p env.target.user.nick);
  eval = λ t env. if is_empty t then none else some true;
  as_bool = λ b. some b;
  decode_string = λ b. some (codes "on");
  decode_int = λ b. some (pos 7);
  decode_float = λ b. some 7;
  parse_float = λ t. 0;
  format_float = λ n. codes "7";
}

abbrev pub noon : Time
noon = record { unix = pos 1600000000; nanosecond = 5; zone = utc }

abbrev pub stamp : Stamp
stamp = record { now = noon; hash = λ e. some 42 }

abbrev pub ann : User
ann = record zero_user { id = codes "a1"; nick = codes "ann"; tags = some [] }

abbrev pub stranger : User
stranger = record zero_user { nick = codes "bob"; tags = some [] }

abbrev pub room : Room
room = record { id = codes "r"; owner_id = codes "a1"; owner = some ann; tags = some [] }

abbrev pub by_ann : Source
by_ann = record { user_id = []; user = some ann; plugin_name = [] }

abbrev pub event_with : Text → Text → Event
event_with name filter =
    new_event stamp (some room) (some by_ann) filter (codes "en") name
      (some ((codes "message", codes "hi") ∷ []))

abbrev pub chat_event : Event
chat_event = event_with EventType.chat []

abbrev pub whisper : Event
whisper = event_with EventType.chat (codes "ann")

abbrev pub garbled : Event
garbled = event_with EventType.chat (codes "bad")

abbrev pub secret : Event
secret = event_with EventType.internal []
