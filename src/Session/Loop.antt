-- ===== src/Session/Loop.antt =====
-- ReadLoop (ws/client.go): the cases of a frame behind logout and login, and the loop.
use lightspeed_chat.Base.{
  Text, codes, Option, some, List, [], ◌∷◌, ◌++◌, if◌then◌else◌, Run, returns, panics, ◌>>=◌,
  text_eq, has_prefix, insert,
}
use lightspeed_chat.Strings.{is_empty, join, fields}
use lightspeed_chat.Strconv.Quote.{quote}
use lightspeed_chat.Types.{Event, Tags, new_event, fill_room}
use lightspeed_chat.Types.EventType
use lightspeed_chat.Session.{
  ChatMessage, OtherMessage, SessionLib, UserStore, Effect, to_history, to_everyone, to_self,
  to_plugins, Turn, Session, Next, goes_on, or_close, payload_as, then_next, when, log_out, share,
  own_source,
}
use lightspeed_chat.Delivery.{deref}
use lightspeed_chat.Session.Login.{log_in}

-- What reaches the other clients and what only the client's own loops see.
abbrev pub publish : Turn → List Event → List Effect
publish turn events =
    to_history events ∷ to_everyone events ∷ when turn.registered (to_plugins events ∷ [])

abbrev pub keep_private : Turn → List Event → List Effect
keep_private turn events = when turn.registered (to_self events ∷ to_plugins events ∷ [])

-- `args`, the words behind the first, with single spaces.
abbrev pub words_after : List Text → Text
words_after [] = []
words_after (word ∷ words) = join b' ' words

abbrev pub first_word : List Text → Run Text
first_word [] = panics
first_word (word ∷ words) = returns word

abbrev pub quoted : SessionLib → Text → Text
quoted lib = quote lib.is_print

abbrev pub chat_tags : ChatMessage → Tags
chat_tags msg = (codes "message", msg.message) ∷ (codes "mime_type", codes "text/plain") ∷ []

abbrev pub command_tags : ChatMessage → Text → Tags
command_tags msg command = insert (codes "args") (words_after (fields msg.message)) (
    insert (codes "command") command
      (insert (codes "original_target_filter") msg.filter (chat_tags msg)))

module _ {W : Type 0} (lib : SessionLib) where
  -- An event of the session's user: the source is shared with the session.
  abbrev pub own_event : Turn → Session W → Text → Text → Text → Tags → Event
  own_event turn s filter language name tags =
      new_event turn.stamp (some s.room) (some (own_source s)) filter language name (some tags)

  -- `c.user.Id == ""`
  unfoldable pub reject_guest : Turn → Session W → Next W
  unfolding share
  reject_guest turn s =
      let filter = codes "Target.User.Nick == " ++ quoted lib s.user.nick in
      let tags = (codes "message", codes "Please log in to post a message!") ∷ [] in
      let event = own_event turn s filter (codes "en") EventType.chat tags in
      goes_on (share s) (keep_private turn (event ∷ []))

  unfoldable pub say : Turn → ChatMessage → Session W → Next W
  unfolding share
  say turn msg s =
      let event = own_event turn s msg.filter msg.language EventType.chat (chat_tags msg) in
      goes_on (share s) (publish turn (event ∷ []))

  -- The filter that sends a command to its sender only.
  abbrev pub command_filter : Session W → ChatMessage → Text
  command_filter s msg =
      let own = codes "Target.User.Id == " ++ quoted lib s.user.id in
      if is_empty msg.filter then own else codes "(" ++ msg.filter ++ codes ") && " ++ own

  abbrev pub command_event : Turn → Session W → ChatMessage → Text → Event
  command_event turn s msg command =
      own_event turn s (command_filter s msg) msg.language EventType.command
        (command_tags msg command)

  unfoldable pub run_command : Turn → ChatMessage → Session W → Run (Next W)
  unfolding share
  run_command turn msg s = do
    command ← first_word (fields msg.message)
    returns (goes_on (share s) (keep_private turn (command_event turn s msg command ∷ [])))

  -- The decoded message, with the fields that the code sets; `Language` is never decoded.
  abbrev pub chat_message : Turn → Session W → Text × Text → ChatMessage
  chat_message turn s (message, filter) = record {
    nick = s.user.nick;
    timestamp = turn.stamp.now;
    message = message;
    language = [];
    filter = filter;
  }

  unfoldable pub chat : Turn → Session W → Run (Next W)
  unfolding say run_command
  chat turn s = or_close (payload_as lib lib.decode_chat s) s (λ decoded.
      let msg = chat_message turn s decoded in
      if has_prefix msg.message (codes "/")
      then run_command turn msg s
      else returns (say turn msg s))

  -- The default case: the user is copied, the room is shared.
  abbrev pub other_event : Turn → Session W → OtherMessage → Event
  other_event turn s msg =
      new_event turn.stamp (some s.room) (some (own_source s)) msg.target_filter msg.language
        s.message.event msg.tags

  unfoldable pub other : Turn → Session W → Run (Next W)
  other turn s = or_close (payload_as lib lib.decode_other s) s (λ msg. returns (
      goes_on (record s { room = fill_room (some s.room) })
        (publish turn (other_event turn s msg ∷ []))))

  unfoldable pub dispatch : Turn → Session W → Run (Next W)
  unfolding reject_guest chat other
  dispatch turn s =
      if is_empty s.user.id
      then returns (reject_guest turn s)
      else if text_eq s.message.event EventType.chat
      then chat turn s
      else other turn s

  module _ (users : Option (UserStore W)) where
    -- A frame once it is in `message`.
    unfoldable pub handle_message : Turn → Session W → Run (Next W)
    unfolding log_out log_in dispatch
    handle_message turn s = do
      next ← log_in lib users turn (log_out turn s)
      then_next next (dispatch turn)

    unfoldable pub read_frame : Turn → Session W → Run (Next W)
    unfolding handle_message
    read_frame turn s = or_close turn.raw s (λ raw.
        or_close (lib.unmarshal_frame raw s.message) s (λ pointer. do
          message ← deref pointer
          handle_message turn (record s { message = message })))

    -- ReadLoop on a sequence of frames, until it returns.
    unfoldable pub read_loop : List Turn → Session W → Run (Next W)
    unfolding read_frame
    read_loop [] s = returns (goes_on s [])
    read_loop (turn ∷ turns) s = do next ← read_frame turn s; then_next next (read_loop turns)
