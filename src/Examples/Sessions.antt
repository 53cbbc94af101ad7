-- ===== src/Examples/Sessions.antt =====
-- The theorems on sessions, at concrete frames (ws/client.go).
use lightspeed_chat.Base.{
  Text, codes, true, false, ◌≡◌, ap, sym, ◌∙◌, ◌⊎◌, refl, Option, none, some, List, [], ◌∷◌, ◌++◌,
  if◌then◌else◌, text_eq, has_prefix, lookup, returns, panics, All, Ensures, ◌>>=◌,
}
use lightspeed_chat.Strings.{fields, join}
use lightspeed_chat.Types.{User, Event, Tags}
use lightspeed_chat.Delivery.{Client}
use lightspeed_chat.Session.{
  SessionLib, ChatMessage, UserStore, Found, found, missing, failed, Turn, Session, Next, goes_on,
  share,
}
use lightspeed_chat.Session.Loop.{
  read_loop, read_frame, handle_message, chat, chat_message, keep_private, command_filter,
}
use lightspeed_chat.Session.Publishing.{IsHonest, read_frame-IsHonest, effects_of}
use lightspeed_chat.Session.Stream.{Exposes, read_loop-Exposed}
use lightspeed_chat.Session.Identity.{FindsOwn, Justified, handle_message-Justified}
use lightspeed_chat.Session.Connect.{
  Query, arriving_user, connect, IsPlainTags, IsArriving, connect-IsPlainTags,
}
use lightspeed_chat.Session.Commands.{chat-command}
use lightspeed_chat.Session.Failing.{IsNull, read_frame-panics}
use lightspeed_chat.Session.Filters.{command_filter_lem}
use lightspeed_chat.Session.Write.{group_events, or_none, wanted, group_events_lem}
use lightspeed_chat.Strconv.Quote.Literal.{literal_end}
use lightspeed_chat.Examples.{example_lib, ann, stranger, room, stamp, chat_event, whisper, garbled}

-- A frame's text is the kind of event, or `null`; every payload is one map, with these messages in it.
abbrev pub session_lib : SessionLib
session_lib = record {
  Fields = Text;
  unmarshal_frame = λ raw message.
      if text_eq raw (codes "null")
      then some none
      else some (some (record { event = raw; payload = raw }));
  unmarshal_map = λ payload. some payload;
  decode_login = λ payload.
      some (record { id_token = codes "t"; provider = codes "p"; language = codes "DE" });
  decode_chat = λ payload. some (codes "/to ann  see you", []);
  decode_other = λ payload. some (record { target_filter = []; language = []; tags = none });
  is_print = λ r. true;
  lower_unicode = λ t. t;
  authenticate = λ token provider. codes "a1";
}

-- A persister that finds everybody.
abbrev full_store : UserStore (List User)
full_store = record {
  get_user = λ id w. found (record ann { id = id; nick = id });
  store_user = λ u w. (true, u ∷ w);
}

abbrev users : Option (UserStore (List User))
users = some full_store

abbrev asked : Text → List User → Option (UserStore (List User)) → Found
asked id w none = missing
asked id w (some store) = store.get_user id w

abbrev id_of : Text → Found → Text
id_of id (found user) = user.id
id_of id missing = id
id_of id failed = id

full_store-FindsOwn : (store : UserStore (List User)) → users ≡ some store → FindsOwn store
full_store-FindsOwn store e id w user h = sym (ap (id_of id) (ap (asked id w) e ∙ h))

abbrev pub frame : Text → Turn
frame raw = record { raw = some raw; stamp = stamp; fantasy_name = codes "Odin"; registered = true }

abbrev session_of_user : User → Text → Session (List User)
session_of_user user event = record {
  user = user;
  language = codes "en";
  room = room;
  message = record { event = event; payload = event };
  world = [];
}

abbrev day : List Turn
day =
    frame (codes "chat")
    ∷ frame (codes "login")
    ∷ frame (codes "chat")
    ∷ frame (codes "poke")
    ∷ frame (codes "logout")
    ∷ []

read_loop-Exposed_example :
    Ensures
      (λ next. All Exposes (effects_of next))
      (read_loop session_lib users day (session_of_user stranger []))
read_loop-Exposed_example = read_loop-Exposed session_lib users day (session_of_user stranger [])

read_frame-IsHonest_example :
    Ensures IsHonest (read_frame session_lib users (frame (codes "poke")) (session_of_user ann []))
read_frame-IsHonest_example =
    read_frame-IsHonest session_lib users (frame (codes "poke")) (session_of_user ann [])

handle_message-Justified_example :
    Ensures
      (Justified session_lib (frame (codes "login")) (session_of_user stranger (codes "login")))
      (handle_message session_lib users
        (frame (codes "login"))
        (session_of_user stranger (codes "login")))
handle_message-Justified_example =
    handle_message-Justified session_lib users full_store-FindsOwn (frame (codes "login"))
      (session_of_user stranger (codes "login"))

abbrev command : Text
command = codes "/to ann  see you"

abbrev talking : Session (List User)
talking = session_of_user ann (codes "chat")

chat-command_example :
    (word : Text) × (words : List Text) × (event : Event) × (fields command ≡ (b'/' ∷ word) ∷ words)
    × (chat session_lib (frame (codes "chat")) talking
        ≡ returns (goes_on (share talking) (keep_private (frame (codes "chat")) (event ∷ []))))
    × (event.name ≡ codes "command")
    × (tags : Tags) × (event.tags ≡ some tags)
    × (lookup (codes "command") tags ≡ some (b'/' ∷ word))
    × (lookup (codes "args") tags ≡ some (join b' ' words))
unfolding has_prefix
chat-command_example = chat-command session_lib (frame (codes "chat")) talking command [] refl refl

read_frame-panics_example :
    (IsNull session_lib (frame (codes "null")) talking
      × (read_frame session_lib users (frame (codes "null")) talking ≡ panics))
    ⊎ ((¬ (IsNull session_lib (frame (codes "null")) talking))
        × (next : Next _) × (read_frame session_lib users (frame (codes "null")) talking
            ≡ returns next))
read_frame-panics_example = read_frame-panics session_lib users (frame (codes "null")) talking

abbrev plain : ChatMessage
plain = chat_message session_lib (frame (codes "chat")) talking (command, [])

command_filter_lem_example :
    (body : Text) × (command_filter session_lib talking plain
      ≡ codes "Target.User.Id == " ++ (b'"' ∷ body))
    × (literal_end false body ≡ some [])
command_filter_lem_example = command_filter_lem session_lib talking plain refl

abbrev client : Client
client = record { number = 1; user = ann; language = codes "en" }

abbrev marshal : Event → Option Text
marshal event = some event.target_filter

group_events_lem_example :
    (group_events example_lib marshal room client (chat_event ∷ garbled ∷ whisper ∷ []) []
      >>= λ groups. returns (or_none (lookup (codes "chat") groups)))
    ≡ wanted example_lib marshal room client (codes "chat") (chat_event ∷ garbled ∷ whisper ∷ [])
group_events_lem_example =
    group_events_lem example_lib marshal room client (codes "chat")
      (chat_event ∷ garbled ∷ whisper ∷ [])

abbrev arrival : Query
arrival = record { id_token = codes "t"; provider = codes "p" }

abbrev arrived : User
arrived = record ann { id = codes "a1"; nick = codes "a1" }

connect-IsPlainTags_example :
    IsPlainTags arrived.tags × IsArriving session_lib (frame []) room arrival arrived.id
unfolding connect arriving_user
connect-IsPlainTags_example =
    connect-IsPlainTags session_lib users full_store-FindsOwn (frame []) room arrival [] arrived
      refl
