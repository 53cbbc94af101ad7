-- ===== src/Startup.antt =====
-- The start of the server: NewPersister (persistence/types.go), and the rooms and their hubs in main of
-- cmd/lightspeed-chat/main.go, over the calls of a persister. The HTTP server is left out.
pub mod Plugins
pub mod Kept
use lightspeed_chat.Base.{
  Text, codes, Dict, Bool, Option, none, some, List, [], ◌∷◌, Run, returns, panics, ◌>>=◌, insert,
}
use lightspeed_chat.Types.{User, Room, zero_user, zero_room}
use lightspeed_chat.Bunt.{Reply, ok, not_found, other_error}

-- A persister of one of the three kinds that are asked for.
pub data AnyPersister (G S B : Type 0) : Type 0 where
  on_gorm : G → AnyPersister G S B
  on_sqlite : S → AnyPersister G S B
  on_bunt : B → AnyPersister G S B

abbrev pub or_next :
    {A P : Type 0} → (A → P) → Reply (Option A) → Reply (Option P) → Reply (Option P)
or_next wrap (ok none) next = next
or_next wrap (ok (some a)) next = ok (some (wrap a))
or_next wrap not_found next = not_found
or_next wrap other_error next = other_error

-- `NewPersister`, of what the three constructors return: nil without a configuration of theirs, or an
-- error, which ends the search.
unfoldable pub new_persister :
    {G S B : Type 0}
    → Reply (Option G)
    → Reply (Option S)
    → Reply (Option B)
    → Reply (Option (AnyPersister G S B))
new_persister gorm sqlite bunt =
    or_next on_gorm gorm (or_next on_sqlite sqlite (or_next on_bunt bunt (ok none)))

-- The calls of a persister that main makes.
pub record RoomStore (W : Type 0) : Type 0 where
  pub get_rooms : W → Reply (List Room)
  pub get_user : User → W → Reply User
  pub store_user : User → W → Reply (Unit {0}) × W
  pub store_room : Room → W → Run (Reply (Unit {0}) × W)

-- A user who is not stored yet; the one of a server without persister is the same.
abbrev pub new_admin : Text → User
new_admin admin = record zero_user {
  id = admin;
  nick = admin;
  language = codes "en";
  tags = some [];
}

abbrev pub default_room : User → Room
default_room owner = record zero_room {
  id = codes "default";
  owner = some owner;
  tags = some ((codes "_allow_guests", codes "true") ∷ []);
}

-- `if err != nil { panic(err) }`
abbrev pub or_panic : {A W : Type 0} → A → Reply (Unit {0}) × W → Run (A × W)
or_panic a (ok _, w) = returns (a, w)
or_panic a (not_found, w) = panics
or_panic a (other_error, w) = panics

module _ {W : Type 0} (store : RoomStore W) (admin : Text) where
  -- The admin user after GetUser.
  abbrev pub find_admin : W → Reply User → Run (User × W)
  find_admin w (ok user) = returns (user, w)
  find_admin w not_found = or_panic (new_admin admin) (store.store_user (new_admin admin) w)
  find_admin w other_error = panics

  -- The default room, stored with the admin as its owner.
  unfoldable pub create_room : W → Run (List Room × W)
  create_room w = do
    (owner, w') ← find_admin w (store.get_user (record zero_user { id = admin }) w)
    stored ← store.store_room (default_room owner) w'
    or_panic (default_room owner ∷ []) stored

  abbrev pub rooms_or_default : W → Reply (List Room) → Run (List Room × W)
  rooms_or_default w (ok []) = create_room w
  rooms_or_default w (ok (room ∷ rooms)) = returns (room ∷ rooms, w)
  rooms_or_default w not_found = panics
  rooms_or_default w other_error = panics

  -- The rooms at the start, with a persister.
  unfoldable pub start_rooms : W → Run (List Room × W)
  unfolding create_room
  start_rooms w = rooms_or_default w (store.get_rooms w)

-- The rooms at the start, without a persister.
abbrev pub bare_rooms : Text → List Room
bare_rooms admin = default_room (new_admin admin) ∷ []

-- The hubs by the identity of their room; a later room replaces an earlier one.
unfoldable pub make_hubs : {H : Type 0} → (Room → H) → List Room → Dict H → Dict H
make_hubs new_hub [] hubs = hubs
make_hubs new_hub (room ∷ rooms) hubs = make_hubs new_hub rooms (insert room.id (new_hub room) hubs)
