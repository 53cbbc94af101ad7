-- ===== src/BaseCommands.antt =====
-- The plugin with the base commands (plugins/lightspeed-chat-base-commands-plugin/main.go): /to, /fg
-- and /help on command events. The handlers' error is always nil.
pub mod Replies
pub mod Words
use lightspeed_chat.Base.{
  ℕ, suc, Text, codes, Bool, true, false, ◌&&◌, ◌||◌, not, Option, none, some, List, [], ◌∷◌, ◌++◌,
  drop, length, ltb, if◌then◌else◌, Run, returns, panics, ◌>>=◌, text_eq, has_prefix, lookup,
}
use lightspeed_chat.Strings.{is_empty, join, fields, trim_space}
use lightspeed_chat.Strconv.Quote.{quote}
use lightspeed_chat.Types.{User, Room, Source, Event, Tags, Stamp, new_event, zero_user}
use lightspeed_chat.Types.EventType
use lightspeed_chat.Delivery.{deref}

abbrev pub to_command : Text
to_command = codes "/to"

abbrev pub fg_command : Text
fg_command = codes "/fg"

abbrev pub help_command : Text
help_command = codes "/help"

abbrev pub plugin_name : Text
plugin_name = codes "base-commands"

abbrev pub text_language : Text
text_language = codes "en-US"

abbrev pub help_text : Text
help_text =
    codes "### Base commands plugin ###"
    ++ (10 ∷ codes " -> /to <nick> <message> - send private message to <nick>")
    ++ (10 ∷ codes " -> /fg <color> <message> - use <color> as text color")

-- `v, ok := tags[key]`, on a map that may be nil.
abbrev pub tag : Text → Event → Option Text
tag key event = elim event.tags [ none ↦ none | some tags ↦ lookup key tags ]

-- `ok` and equal to the text, and `ok` and not empty.
abbrev pub is_tag : Text → Text → Event → Bool
is_tag key text event = elim (tag key event) [ none ↦ false | some v ↦ text_eq v text ]

abbrev pub nonempty_tag : Text → Event → Option Text
nonempty_tag key event = elim (tag key event) [
  | none ↦ none
  | some v ↦ if is_empty v then none else some v
]

abbrev pub first_of : List Text → Option Text
first_of [] = none
first_of (word ∷ words) = some word

-- The message behind the command and its first word, none if nothing is left.
unfoldable pub rest_of_message : Text → Text → Option Text
rest_of_message command message =
    if not (has_prefix message command) || ltb (length message) (suc (length command))
    then none
    else (let behind = trim_space (drop (length command) message) in
        elim (fields behind) [
          | [] ↦ none
          | word ∷ _ ↦
              if ltb (length behind) (length word)
              then none
              else (let left = trim_space (drop (length word) behind) in
                  if is_empty left then none else some left)
        ])

-- The guards that /to and /fg share: the first word of the arguments and the text to send.
unfoldable pub argument_and_text : Text → Event → Option (Text × Text)
unfolding rest_of_message
argument_and_text command event =
    if text_eq event.name EventType.command && is_tag (codes "command") command event
    then elim (nonempty_tag (codes "args") event) [
      | none ↦ none
      | some args ↦ elim (first_of (fields args)) [
        | none ↦ none
        | some word ↦ elim (tag (codes "message") event) [
          | none ↦ none
          | some message ↦ elim (rest_of_message command message) [
            | none ↦ none
            | some text ↦ some (word, text)
          ]
        ]
      ]
    ]
    else none

abbrev pub mime_type : Event → Text
mime_type event = elim (tag (codes "mime_type") event) [ none ↦ codes "text/plain" | some mt ↦ mt ]

-- `inEvent.User` is `inEvent.Source.User`.
abbrev pub source_of : Event → Run Source
source_of event = deref event.source

abbrev pub own_source : Option User → Source
own_source user = record { user_id = []; user = user; plugin_name = plugin_name }

module _ (is_print : ℕ → Bool) (stamp : Stamp) where
  -- Whom a private message may reach: the nick, the sender and whom the sender's own filter admits.
  unfoldable pub to_filter : Text → User → Text → Option Text → Text
  to_filter to_nick user from_plugin original =
      let target = codes "Target.User.Nick == " ++ quote is_print to_nick in
      let shared =
        if not (is_empty user.id) && is_empty from_plugin
        then codes "("
          ++ target
          ++ codes " || Target.User.Id == "
          ++ quote is_print user.id
          ++ codes ")"
        else if not (is_empty user.nick) && is_empty from_plugin
        then codes "("
          ++ target
          ++ codes " || Target.User.Nick == "
          ++ quote is_print user.nick
          ++ codes ")"
        else target in
      elim original [ none ↦ shared | some filter ↦ shared ++ codes " && (" ++ filter ++ codes ")" ]

  unfoldable pub handle_to : Event → Run (List Event)
  unfolding argument_and_text to_filter
  handle_to event = elim (argument_and_text to_command event) [
    | none ↦ returns []
    | some (to_nick, text) ↦ do
      source ← source_of event
      user ← deref source.user
      (let filter =
            to_filter to_nick user source.plugin_name
              (nonempty_tag (codes "original_target_filter") event) in
          let tags : Tags = (codes "message", text) ∷ (codes "mime_type", mime_type event) ∷ [] in
          returns (
            new_event stamp event.room (some (own_source source.user)) filter event.language
              EventType.chat (some tags)
            ∷ []))
  ]

  unfoldable pub handle_fg : Event → Run (List Event)
  unfolding argument_and_text
  handle_fg event = elim (argument_and_text fg_command event) [
    | none ↦ returns []
    | some (fg_color, text) ↦ do
      source ← source_of event
      (let tags : Tags =
            (codes "message", text)
            ∷ (codes "mime_type", mime_type event)
            ∷ (codes "fg_color", fg_color)
            ∷ [] in
          returns (
            new_event stamp event.room (some (own_source source.user)) [] event.language
              EventType.chat (some tags)
            ∷ []))
  ]

  unfoldable pub handle_help : Event → Run (List Event)
  handle_help event = do
    source ← source_of event
    user ← deref source.user
    (let tags : Tags =
          (codes "message", help_text) ∷ (codes "mime_type", codes "text/plain") ∷ [] in
        let filter = codes "Target.User.Id == " ++ quote is_print user.id in
        returns (
          new_event stamp event.room (some (own_source source.user)) filter text_language
            EventType.chat (some tags)
          ∷ []))

  -- The map `commands`; an event without known command has no reply.
  unfoldable pub run_command : Event → Run (List Event)
  unfolding handle_to handle_fg handle_help
  run_command event = elim (tag (codes "command") event) [
    | none ↦ returns []
    | some cmd ↦
        if text_eq cmd to_command
        then handle_to event
        else if text_eq cmd fg_command
        then handle_fg event
        else if text_eq cmd help_command
        then handle_help event
        else returns []
  ]

  unfoldable pub handle_events : List Event → Run (List Event)
  unfolding run_command
  handle_events [] = returns []
  handle_events (event ∷ events) = do
    res ← (if text_eq event.name EventType.command then run_command event else returns [])
    rest ← handle_events events
    returns (res ++ rest)

  -- The event filter that Configure returns.
  unfoldable pub event_filter : Text
  event_filter =
      codes "Name==\"command\" && (Tags[\"command\"] in ["
      ++ join b','
          (quote is_print help_command ∷ quote is_print to_command ∷ quote is_print fg_command ∷ [])
      ++ codes "])"

  -- `Cron`: the greeting, and what the plugin itself would answer to it.
  unfoldable pub cron : Room → Run (List Event)
  unfolding handle_events
  cron room =
      let user : User = record zero_user { nick = codes "baseCommandsBot" } in
      let tags : Tags = (codes "message", codes "baseCommandsBot active") ∷ [] in
      let event =
        new_event stamp (some room) (some (own_source (some user))) [] text_language EventType.chat
          (some tags) in
      handle_events (event ∷ []) >>= λ out. returns (event ∷ out)
