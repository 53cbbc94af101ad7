-- ===== src/BaseCommands/Replies.antt =====
-- What the base commands answer.
use lightspeed_chat.Base.{
  ℕ, Text, codes, Bool, ◌≡◌, refl, Option, none, some, List, [], ◌∷◌, All, All-append, Ensures,
  Ensures-bind, Ensures-if, text_eq,
}
use lightspeed_chat.Types.{User, Room, Event, Tags, Stamp, new_event}
use lightspeed_chat.Types.EventType
use lightspeed_chat.Types.Complete.{Holds, IsComplete, new_event-IsComplete}
use lightspeed_chat.Delivery.{deref}
use lightspeed_chat.BaseCommands.{
  text_language, plugin_name, to_command, fg_command, help_command, own_source, argument_and_text,
  handle_to, handle_fg, handle_help, run_command, handle_events, tag,
}

-- A chat event of this plugin, without nil pointer.
abbrev pub IsReply : Event → Type 0
IsReply e =
    (e.name ≡ EventType.chat) × Holds (λ s. s.plugin_name ≡ plugin_name) e.source × IsComplete e

reply_lem :
    (stamp : Stamp) (room : Option Room) (user : Option User) (filter language : Text)
    (tags : Option Tags)
    → IsReply (new_event stamp room (some (own_source user)) filter language EventType.chat tags)
reply_lem stamp room user filter language tags = (
  unfold new_event in refl,
  unfold new_event in refl,
  new_event-IsComplete stamp room (some (own_source user)) filter language EventType.chat tags,
)

anything : {A : Type 0} (o : Option A) → Ensures (λ _. Unit {0}) (deref o)
anything none = tt
anything (some a) = tt

module _ (is_print : ℕ → Bool) (stamp : Stamp) where
  to-IsReply :
      (event : Event) (o : Option (Text × Text))
      → argument_and_text to_command event ≡ o
      → Ensures (All IsReply) (handle_to is_print stamp event)
  unfolding handle_to
  to-IsReply event none e = rw (handle_to, e) tt
  to-IsReply event (some (nick, text)) e =
      rw (handle_to, e)
        (Ensures-bind (λ _. Unit {0}) (All IsReply) (deref event.source) _ (anything event.source)
          (λ source _.
            Ensures-bind (λ _. Unit {0}) (All IsReply) (deref source.user) _ (anything source.user)
              (λ user _. (reply_lem stamp event.room source.user _ event.language _, tt))))

  fg-IsReply :
      (event : Event) (o : Option (Text × Text))
      → argument_and_text fg_command event ≡ o
      → Ensures (All IsReply) (handle_fg is_print stamp event)
  unfolding handle_fg
  fg-IsReply event none e = rw (handle_fg, e) tt
  fg-IsReply event (some (color, text)) e =
      rw (handle_fg, e)
        (Ensures-bind (λ _. Unit {0}) (All IsReply) (deref event.source) _ (anything event.source)
          (λ source _. (reply_lem stamp event.room source.user [] event.language _, tt)))

  help-IsReply : (event : Event) → Ensures (All IsReply) (handle_help is_print stamp event)
  unfolding handle_help
  help-IsReply event =
      Ensures-bind (λ _. Unit {0}) (All IsReply) (deref event.source) _ (anything event.source)
        (λ source _.
          Ensures-bind (λ _. Unit {0}) (All IsReply) (deref source.user) _ (anything source.user)
            (λ user _. (reply_lem stamp event.room source.user _ text_language _, tt)))

  command-IsReply :
      (event : Event) (o : Option Text)
      → tag (codes "command") event ≡ o
      → Ensures (All IsReply) (run_command is_print stamp event)
  unfolding run_command
  command-IsReply event none e = rw (run_command, e) tt
  command-IsReply event (some cmd) e =
      rw (run_command, e)
        (Ensures-if (All IsReply) (text_eq cmd to_command) _ _
          (λ _. to-IsReply event (argument_and_text to_command event) refl)
          (λ _.
            Ensures-if (All IsReply) (text_eq cmd fg_command) _ _
              (λ _. fg-IsReply event (argument_and_text fg_command event) refl)
              (λ _.
                Ensures-if (All IsReply) (text_eq cmd help_command) _ _ (λ _. help-IsReply event)
                  (λ _. tt))))

  -- Whatever events it is given, the plugin answers with chat events under its own name, without nil
  -- pointer or nil map; so no answer is a command again.
  pub handle_events-IsReply :
      (events : List Event) → Ensures (All IsReply) (handle_events is_print stamp events)
  unfolding handle_events
  handle_events-IsReply [] = tt
  handle_events-IsReply (event ∷ events) =
      Ensures-bind (All IsReply) (All IsReply) _ _
        (Ensures-if (All IsReply) (text_eq event.name EventType.command) _ _
          (λ _. command-IsReply event (tag (codes "command") event) refl) (λ _. tt))
        (λ res replies.
          Ensures-bind (All IsReply) (All IsReply) (handle_events is_print stamp events) _
            (handle_events-IsReply events) (λ rest more. All-append IsReply res rest replies more))
