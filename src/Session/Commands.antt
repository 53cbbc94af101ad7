-- ===== src/Session/Commands.antt =====
-- A chat message that starts with a slash (ReadLoop in ws/client.go).
use lightspeed_chat.Base.{
  text_eq, Text, codes, true, ◌≡◌, refl, some, List, [], ◌∷◌, returns, has_prefix, has_prefix-one,
  lookup, lookup-insert,
}
use lightspeed_chat.Strings.{fields, join}
use lightspeed_chat.Strings.Words.{fields-word, space_width-slash}
use lightspeed_chat.Types.{Event, Tags, new_event}
use lightspeed_chat.Session.{SessionLib, ChatMessage, Turn, Session, goes_on, payload_as, share}
use lightspeed_chat.Session.Loop.{
  keep_private, run_command, chat, chat_message, command_event, command_tags,
}

-- The first word of such a message is there, and starts with the slash.
pub command-word :
    (message : Text)
    → has_prefix message (codes "/") ≡ true
    → (word : Text) × (words : List Text) × (fields message ≡ (b'/' ∷ word) ∷ words)
command-word message h =
    let (rest, e) = has_prefix-one message b'/' h in
    rw e (fields-word b'/' rest (space_width-slash rest))

module _ {W : Type 0} (lib : SessionLib) where
  pub run_command_lem :
      (turn : Turn) (msg : ChatMessage) (s : Session W) (word : Text) (words : List Text)
      → fields msg.message ≡ word ∷ words
      → run_command lib turn msg s
        ≡ returns (goes_on (share s) (keep_private turn (command_event lib turn s msg word ∷ [])))
  unfolding run_command
  run_command_lem turn msg s word words e = rw e refl

  -- A chat message that starts with a slash does not panic, reaches neither the history nor the
  -- other clients, and becomes a command event with its first word, slash included, as the command
  -- and the other words, joined by single spaces, as the arguments.
  pub chat-command :
      (turn : Turn) (s : Session W) (message filter : Text)
      → payload_as lib lib.decode_chat s ≡ some (message, filter)
      → has_prefix message (codes "/") ≡ true
      → (word : Text) × (words : List Text) × (event : Event) × (fields message
          ≡ (b'/' ∷ word) ∷ words)
        × (chat lib turn s ≡ returns (goes_on (share s) (keep_private turn (event ∷ []))))
        × (event.name ≡ codes "command")
        × (tags : Tags) × (event.tags ≡ some tags)
        × (lookup (codes "command") tags ≡ some (b'/' ∷ word))
        × (lookup (codes "args") tags ≡ some (join b' ' words))
  unfolding chat new_event
  chat-command turn s message filter decoded slash =
      let msg = chat_message lib turn s (message, filter) in
      let (word, words, e) = command-word message slash in
      (
        word,
        words,
        command_event lib turn s msg (b'/' ∷ word),
        e,
        rw (decoded, slash) (run_command_lem turn msg s (b'/' ∷ word) words e),
        refl,
        command_tags msg (b'/' ∷ word),
        refl,
        unfold text_eq in rw (lookup-insert, lookup-insert) refl,
        unfold text_eq in rw (lookup-insert, e) refl,
      )
