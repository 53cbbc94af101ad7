-- ===== src/Session.antt =====
-- A websocket session (ws/client.go): NewClient, and what ReadLoop does with a frame. What it does
-- to the rest of the program, over channels, is a list of effects in the order of the sends.
pub mod Login
pub mod Loop
pub mod Publishing
pub mod Commands
pub mod Connect
pub mod Failing
pub mod Filters
pub mod Stream
pub mod Write
pub mod Pump
pub mod Fifo
pub mod Identity
use lightspeed_chat.Base.{
  ℕ, ◌+◌, Text, codes, Bool, true, false, ◌&&◌, not, Option, none, some, List, [], ◌∷◌, ◌++◌, take,
  length, ltb, leb, if◌then◌else◌, Run, returns, panics, ◌>>=◌, text_eq, has_prefix, lookup,
}
use lightspeed_chat.Strings.{is_empty, join, fields}
use lightspeed_chat.Strconv.{parse_bool}
use lightspeed_chat.Strconv.Quote.{quote}
use lightspeed_chat.Types.{
  User, Room, Source, Event, Tags, Time, Stamp, new_event, fill_user, fill_room, zero_time,
}
use lightspeed_chat.Types.EventType

-- `types.WebsocketMessage`, `types.LoginMessage` and `types.ChatMessage`.
pub record WireMessage : Type 0 where
  pub event : Text
  pub payload : Text

pub record LoginMessage : Type 0 where
  pub id_token : Text
  pub provider : Text
  pub language : Text

pub record ChatMessage : Type 0 where
  pub nick : Text
  pub timestamp : Time
  pub message : Text
  pub language : Text
  pub filter : Text

-- The anonymous struct of the default case.
pub record OtherMessage : Type 0 where
  pub target_filter : Text
  pub language : Text
  pub tags : Option Tags

-- The libraries: `json.Unmarshal` of a frame into the message of the frame before, `none` for an
-- error and `some none` where the pointer becomes nil; of the data into a map; mapstructure's weak
-- decodings of the map (of a chat message, its message and its filter); `unicode.IsPrint` and
-- `strings.ToLower` off ASCII; and `auth.Authenticate`, empty on an error.
pub record SessionLib : Type 1 where
  pub Fields : Type 0
  pub unmarshal_frame : Text → WireMessage → Option (Option WireMessage)
  pub unmarshal_map : Text → Option Fields
  pub decode_login : Fields → Option LoginMessage
  pub decode_chat : Fields → Option (Text × Text)
  pub decode_other : Fields → Option OtherMessage
  pub is_print : ℕ → Bool
  pub lower_unicode : Text → Text
  pub authenticate : Text → Text → Text

-- What `Persister.GetUser` finds: the user, one of the three errors that mean that there is none,
-- or another error.
pub data Found : Type 0 where
  found : User → Found
  missing failed : Found

-- The users of a persister, over its state.
pub record UserStore (W : Type 0) : Type 0 where
  pub get_user : Text → W → Found
  pub store_user : User → W → Bool × W

pub data Effect : Type 0 where
  -- `c.hub.EventHistory <- events`, `c.hub.BroadcastEvents <- events`
  to_history to_everyone : List Event → Effect
  -- `c.SendEvents <- events`, `c.PluginChan <- events`
  to_self to_plugins : List Event → Effect
  -- `go c.SendHistory(c.hub.GetHistory(), nil)`
  send_history : Effect

-- What a frame meets: the bytes read (`none` for an error of the connection), the clock and the hash
-- of an event, a name from the generator, and whether the hub still knows the client.
pub record Turn : Type 0 where
  pub raw : Option Text
  pub stamp : Stamp
  pub fantasy_name : Text
  pub registered : Bool

pub record Session (W : Type 0) : Type 0 where
  pub user : User
  pub language : Text
  pub room : Room
  pub message : WireMessage
  pub world : W

-- The loop goes on, or ReadLoop returns and the connection is closed.
pub data Next (W : Type 0) : Type 0 where
  goes_on closes : Session W → List Effect → Next W

abbrev pub behind : {W : Type 0} → List Effect → Next W → Next W
behind effects (goes_on s more) = goes_on s (effects ++ more)
behind effects (closes s more) = closes s (effects ++ more)

abbrev pub then_next : {W : Type 0} → Next W → (Session W → Run (Next W)) → Run (Next W)
then_next (closes s effects) f = returns (closes s effects)
then_next (goes_on s effects) f = do next ← f s; returns (behind effects next)

-- `if err != nil { return }`
abbrev pub or_close : {W A : Type 0} → Option A → Session W → (A → Run (Next W)) → Run (Next W)
or_close none s f = returns (closes s [])
or_close (some a) s f = f a

-- The data of the message, as a map and then as a struct.
abbrev pub payload_as :
    {W A : Type 0} (lib : SessionLib) → (lib.Fields → Option A) → Session W → Option A
payload_as lib decode s = elim (lib.unmarshal_map s.message.payload) [
  | none ↦ none
  | some fields ↦ decode fields
]

-- `NewClient`, its language.
unfoldable pub client_language : Text → Text
client_language language =
    let lang = if ltb 2 (length language) then take 2 language else language in
    if ltb (length lang) 2 then codes "en" else lang

abbrev pub when {ℓ} : {A : Type ℓ} → Bool → List A → List A
when b xs = if b then xs else []

lower_ascii : Text → Text
lower_ascii [] = []
lower_ascii (c ∷ s) = (if leb b'A' c && leb c b'Z' then c + 32 else c) ∷ lower_ascii s

is_ascii : Text → Bool
is_ascii [] = true
is_ascii (c ∷ s) = ltb c 0x80 && is_ascii s

-- `strings.ToLower(s)`
unfoldable pub to_lower : SessionLib → Text → Text
unfolding lower_ascii is_ascii
to_lower lib s = if is_ascii s then lower_ascii s else lib.lower_unicode s

-- `Hub.Room.Tags["_allow_guests"]`, parsed.
unfoldable pub allows_guests : Option Tags → Bool
allows_guests none = false
allows_guests (some tags) = elim (lookup (codes "_allow_guests") tags) [
  | none ↦ false
  | some ag ↦ elim (parse_bool ag) [ none ↦ false | some b ↦ b ]
]

module _ {W : Type 0} where
  -- The case of a logout: the user becomes a guest, who has an identity if the room allows guests.
  unfoldable pub guest : Turn → Session W → User
  unfolding allows_guests
  guest turn s =
      let nick = turn.fantasy_name ++ codes " (guest)" in
      record {
        id = if allows_guests s.room.tags then nick else [];
        nick = nick;
        language = s.language;
        tags = some [];
        last_online = zero_time;
      }

  unfoldable pub log_out : Turn → Session W → Session W
  unfolding guest
  log_out turn s =
      if text_eq s.message.event EventType.logout && not (is_empty s.user.id)
      then record s { user = guest turn s }
      else s

  -- `NewEvent` fills in the user and the room that it is given, which the session shares with it.
  unfoldable pub share : Session W → Session W
  share s = record s { user = fill_user s.user; room = fill_room (some s.room) }

  abbrev pub own_source : Session W → Source
  own_source s = record { user_id = []; user = some s.user; plugin_name = [] }
