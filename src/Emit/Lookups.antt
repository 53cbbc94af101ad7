-- ===== src/Emit/Lookups.antt =====
-- What a plugin may look up and change through the main program (ws/events.go), over an interface of
-- the persister, and that interface on BuntDB.
pub mod Changes
use lightspeed_chat.Base.{
  Text, Bool, true, false, ◌&&◌, not, Option, none, some, List, [], ◌∷◌, map, if◌then◌else◌, Run,
  returns, ◌>>=◌,
}
use lightspeed_chat.Strings.{is_empty}
use lightspeed_chat.Types.{User, zero_user, Room, zero_room, TagUpdate}
use lightspeed_chat.Filter.{ExprLib}
use lightspeed_chat.Bunt.{Reply, ok, not_found, other_error, Kv}
use lightspeed_chat.Bunt.Users
use lightspeed_chat.Bunt.Rooms.{Bunt}
use lightspeed_chat.Bunt.Rooms

-- The calls of a persister that are used here, none for an error; a user and a room are read over the
-- one that is given.
pub record Persister (W : Type 0) : Type 0 where
  pub find_user : User → W → Option User
  pub find_room : Room → W → Option Room
  pub change_user : User → List TagUpdate → W → Run (Option (User × List Bool) × W)
  pub change_room : Room → List TagUpdate → W → Run (Option (Room × List Bool) × W)

module _ {W : Type 0} (persister : Option (Persister W)) where
  -- `emitEventsHelper.AuthenticateUser`: `auth.Authenticate` is `authenticate`, none for an error.
  unfoldable pub authenticate_user : (Text → Text → Option Text) → Text → Text → W → Option User
  authenticate_user authenticate id_token provider w = elim (authenticate id_token provider) [
    | none ↦ none
    | some user_id ↦
        let user : User = record zero_user { id = user_id } in
        if is_empty user_id
        then some user
        else elim persister [ none ↦ some user | some p ↦ p.find_user user w ]
  ]

  -- `emitEventsHelper.GetUser` and `emitEventsHelper.GetRoom`
  unfoldable pub look_up_user : Text → W → Option User
  look_up_user user_id w =
      let user : User = record zero_user { id = user_id } in
      elim persister [ none ↦ some user | some p ↦ p.find_user user w ]

  unfoldable pub look_up_room : Text → W → Option Room
  look_up_room room_id w =
      let room : Room = record zero_room { id = room_id } in
      elim persister [ none ↦ some room | some p ↦ p.find_room room w ]

  -- `emitEventsHelper.ChangeUserTags` and `emitEventsHelper.ChangeRoomTags`
  unfoldable pub change_user_tags : Text → List TagUpdate → W → Run (Option (User × List Bool) × W)
  change_user_tags user_id updates w =
      let user : User = record zero_user { id = user_id } in
      elim persister [
        | none ↦ returns (some (user, map (λ _. false) updates), w)
        | some p ↦ p.change_user user updates w
      ]

  unfoldable pub change_room_tags : Text → List TagUpdate → W → Run (Option (Room × List Bool) × W)
  change_room_tags room_id updates w =
      let room : Room = record zero_room { id = room_id } in
      elim persister [
        | none ↦ returns (some (room, map (λ _. false) updates), w)
        | some p ↦ p.change_room room updates w
      ]

abbrev pub or_failed {ℓ} : {A : Type ℓ} → Reply A → Option A
or_failed (ok a) = some a
or_failed not_found = none
or_failed other_error = none

-- The persister on BuntDB behind the interface.
abbrev pub bunt_persister : (kv : Kv) (lib : ExprLib) → Persister (Bunt kv)
bunt_persister kv lib = record {
  find_user = λ user p. or_failed (Users.get_user kv user p.db);
  find_room = λ room p. or_failed (Rooms.get_room kv room p);
  change_user = λ user updates p. Users.update_user_tags kv lib user updates p.db >>= λ (reply, db).
      returns (or_failed reply, record p { db = db });
  change_room = λ room updates p.
      Rooms.update_room_tags kv lib room updates p >>= λ (reply, p'). returns (or_failed reply, p');
}
