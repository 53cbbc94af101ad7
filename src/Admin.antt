-- ===== src/Admin.antt =====
-- The commands of the admin program (cmd/lightspeed-chat-admin/main.go), over the calls of a persister.
-- The command line, but for the arguments that the commands take from it, the loading of the plugins, as
-- in Startup/Plugins, and encoding/json are parameters or left out.
pub mod Saved
use lightspeed_chat.Base.{
  ℕ, Text, codes, Bool, true, false, ◌&&◌, not, Option, none, some, List, [], ◌∷◌, get_elem?,
  if◌then◌else◌, text_eq, Run, returns, ◌>>=◌,
}
use lightspeed_chat.Strings.{is_empty}
use lightspeed_chat.Types.{User, Room, zero_user, zero_room}
use lightspeed_chat.Filter.TagUpdates.{or_empty}
use lightspeed_chat.Bunt.{Reply, ok, not_found, other_error}

-- The calls of a persister that the commands make.
pub record AdminStore (W : Type 0) : Type 0 where
  pub get_rooms : W → Reply (List Room)
  pub get_room : Room → W → Reply Room
  pub get_users : W → Reply (List User)
  pub get_user : User → W → Reply User
  pub delete_room : Room → W → Reply (Unit {0}) × W
  pub delete_user : User → W → Reply (Unit {0}) × W
  pub store_room : Room → W → Run (Reply (Unit {0}) × W)
  pub store_user : User → W → Reply (Unit {0}) × W

-- `json.Marshal`, and Decode over the zero value; none for an error.
pub record AdminJson : Type 0 where
  pub marshal_rooms : List Room → Option Text
  pub marshal_room : Room → Option Text
  pub marshal_users : List User → Option Text
  pub marshal_user : User → Option Text
  pub decode_room : Text → Option Room
  pub decode_user : Text → Option User

-- What a command does: it prints a text, ends, or logs an error.
pub data Outcome : Type 0 where
  prints : Text → Outcome
  done logs : Outcome

abbrev pub print_text : Option Text → Outcome
print_text none = logs
print_text (some text) = prints text

abbrev pub print_reply : {A : Type 0} → (A → Option Text) → Reply A → Outcome
print_reply marshal (ok a) = print_text (marshal a)
print_reply marshal not_found = logs
print_reply marshal other_error = logs

abbrev pub end_of : {W : Type 0} → Reply (Unit {0}) × W → Outcome × W
end_of (ok _, w) = (done, w)
end_of (not_found, w) = (logs, w)
end_of (other_error, w) = (logs, w)

-- `pflag.Arg(i)` of the words of the command line that are no flags.
abbrev pub pflag_arg : ℕ → List Text → Text
pflag_arg i words = or_empty (get_elem? words i)

-- The definition, or what is read from standard input for `-`.
abbrev pub definition : Text → Text → Text
definition stdin arg = if text_eq arg (codes "-") then stdin else arg

abbrev pub or_zero_user : Option User → User
or_zero_user none = zero_user
or_zero_user (some user) = user

module _ {W : Type 0} (store : AdminStore W) (json : AdminJson) where
  -- cmdShowRooms, cmdShowRoom, cmdShowUsers and cmdShowUser
  unfoldable pub show_rooms : W → Outcome
  show_rooms w = print_reply json.marshal_rooms (store.get_rooms w)

  unfoldable pub show_room : Text → W → Outcome
  show_room id w = print_reply json.marshal_room (store.get_room (record zero_room { id = id }) w)

  unfoldable pub show_users : W → Outcome
  show_users w = print_reply json.marshal_users (store.get_users w)

  unfoldable pub show_user : Text → W → Outcome
  show_user id w = print_reply json.marshal_user (store.get_user (record zero_user { id = id }) w)

  -- cmdDeleteRoom and cmdDeleteUser, which take the identity from the whole command line.
  unfoldable pub delete_room : List Text → W → Outcome × W
  delete_room words w = end_of (store.delete_room (record zero_room { id = pflag_arg 2 words }) w)

  unfoldable pub delete_user : List Text → W → Outcome × W
  delete_user words w = end_of (store.delete_user (record zero_user { id = pflag_arg 2 words }) w)

  abbrev pub save_room : Room → User → W → Run (Outcome × W)
  save_room room owner w = do
    stored ← store.store_room (record room { owner = some owner }) w
    returns (end_of stored)

  -- What follows GetUser of an owner without nick.
  abbrev pub save_with : Room → W → Reply User → Run (Outcome × W)
  save_with room w (ok owner) = save_room room owner w
  save_with room w not_found = returns (logs, w)
  save_with room w other_error = returns (logs, w)

  -- A room that decodes; that it does not exist yet is only logged.
  unfoldable pub save_decoded : Room → W → Run (Outcome × W)
  save_decoded room w =
      let owner = or_zero_user room.owner in
      if is_empty room.id
      then returns (logs, w)
      else if not (is_empty owner.id) && is_empty owner.nick
      then save_with room w (store.get_user owner w)
      else save_room room owner w

  -- cmdSetRoom
  unfoldable pub set_room : Text → Text → W → Run (Outcome × W)
  unfolding save_decoded
  set_room stdin arg w = elim (json.decode_room (definition stdin arg)) [
    | none ↦ returns (logs, w)
    | some room ↦ save_decoded room w
  ]

  -- cmdSetUser
  unfoldable pub set_user : Text → Text → W → Outcome × W
  set_user stdin arg w = elim (json.decode_user (definition stdin arg)) [
    | none ↦ (logs, w)
    | some user ↦ if is_empty user.id then (logs, w) else end_of (store.store_user user w)
  ]
