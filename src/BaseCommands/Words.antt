-- ===== src/BaseCommands/Words.antt =====
-- The text of a base command: the slices of the message that the plugin takes.
use lightspeed_chat.Base.{
  Text, true, false, ◌≡◌, refl, none, some, List, ◌∷◌, drop, length, ltb, suc, ◌<◌, if◌then◌else◌,
  has_prefix, arith,
}
use lightspeed_chat.Strings.{is_empty, fields, trim_space}
use lightspeed_chat.Strings.Words.{length-fields_first}
use lightspeed_chat.BaseCommands.{rest_of_message}

-- Of a message longer than its command, /to and /fg send what follows the first word behind the
-- command, without white space around it, if anything is left: the guard against a first word longer
-- than the text never holds, and the slice behind the word is within bounds.
pub rest_of_message_lem :
    (command message word : Text) (words : List Text)
    → has_prefix message command ≡ true
    → length command < length message
    → fields (trim_space (drop (length command) message)) ≡ word ∷ words
    → rest_of_message command message ≡ (
        if is_empty (trim_space (drop (length word) (trim_space (drop (length command) message))))
        then none
        else some (trim_space (drop (length word) (trim_space (drop (length command) message)))))
unfolding rest_of_message
rest_of_message_lem command message word words starts longer first =
    let behind = trim_space (drop (length command) message) in
    let within : ltb (length behind) (length word) ≡ false =
      ground (arith, length-fields_first behind word words first) in
    let long_enough : ltb (length message) (suc (length command)) ≡ false =
      ground (arith, longer) in
    rw (starts, long_enough, first, within) refl
