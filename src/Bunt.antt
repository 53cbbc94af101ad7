-- ===== src/Bunt.antt =====
-- The persister on BuntDB (persistence/buntdb.go). The store, its indexes and its transactions are
-- buntdb's, the JSON texts encoding/json's, and the file names a template's: parameters. The two locks
-- are left out, since each operation holds them to its end.
pub mod Users
pub mod Rooms
pub mod Events
pub mod Rfc3339
pub mod ReadBack
pub mod Setup
pub mod TagWrites
pub mod Pages
pub mod Faults
use lightspeed_chat.Base.{
  Text, codes, Dict, Bool, true, false, Option, none, some, List, [], ◌∷◌, ◌++◌, if◌then◌else◌, Run,
  returns,
}
use lightspeed_chat.Types.{User, Room, Event}

-- What a call returns: a value, buntdb's ErrNotFound, or another error.
pub data Reply {ℓ} (A : Type ℓ) : Type ℓ where
  ok : A → Reply A
  not_found other_error : Reply A

abbrev pub then_ok {ℓ κ} : {A : Type ℓ} {B : Type κ} → Reply A → (A → Reply B) → Reply B
then_ok (ok a) f = f a
then_ok not_found f = not_found
then_ok other_error f = other_error

abbrev pub then_run {ℓ κ} :
    {A : Type ℓ} {B : Type κ} → Reply A → (A → Run (Reply B)) → Run (Reply B)
then_run (ok a) f = f a
then_run not_found f = returns not_found
then_run other_error f = returns other_error

abbrev pub or_other {ℓ} : {A : Type ℓ} → Option A → Reply A
or_other none = other_error
or_other (some a) = ok a

-- A database and the calls on it. A transaction may write if it is one of `Update`; `commits` says
-- whether its changes reach the file.
pub record Kv : Type 1 where
  pub Db : Type 0
  pub get : Text → Db → Reply Text
  pub set : Bool → Text → Text → Db → Reply (Option Text × Db)
  pub delete : Bool → Text → Db → Reply (Text × Db)
  pub commits : Db → Bool
  -- The values under an index, in descending order, and those of them up to the first and behind the
  -- second condition.
  pub descend : Text → Db → List Text
  pub descend_range : Text → Text → Text → Db → List Text
  pub open_file : Text → Option Db
  pub create_index : Db → Option Db
  -- `json.Marshal` and `json.Unmarshal` into a value that is there.
  pub marshal_user : User → Option Text
  pub unmarshal_user : Text → User → Option User
  pub marshal_room : Room → Option Text
  pub unmarshal_room : Text → Room → Option Room
  pub marshal_event : Event → Option Text
  pub unmarshal_event : Text → Option Event
  -- The file name of a room, none for an error of the template.
  pub execute_template : Text → Option Text

module _ (kv : Kv) where
  -- `db.Update`: an error of the body or of the commit takes all changes back.
  unfoldable pub update : {A : Type 0} → (kv.Db → Reply (A × kv.Db)) → kv.Db → Reply A × kv.Db
  update body db = elim (body db) [
    | ok (a, db') ↦ if kv.commits db' then (ok a, db') else (other_error, db)
    | not_found ↦ (not_found, db)
    | other_error ↦ (other_error, db)
  ]

  -- `db.View`: the body's transaction cannot write, and what it leaves is dropped.
  unfoldable pub view : {A : Type 0} → (kv.Db → Reply (A × kv.Db)) → kv.Db → Reply A
  view body db = elim (body db) [
    | ok (a, db') ↦ ok a
    | not_found ↦ not_found
    | other_error ↦ other_error
  ]

  abbrev pub set_value : Text → Text → kv.Db → Reply (Unit {0} × kv.Db)
  set_value key value db = then_ok (kv.set true key value db) (λ (old, db'). ok (tt, db'))

  abbrev pub delete_value : Bool → Text → kv.Db → Reply (Unit {0} × kv.Db)
  delete_value writable key db = then_ok (kv.delete writable key db) (λ (old, db'). ok (tt, db'))

abbrev pub user_key : Text → Text
user_key id = codes "user:" ++ id

abbrev pub room_key : Text → Text
room_key id = codes "room:" ++ id

abbrev pub event_key : Text → Text
event_key id = codes "event:" ++ id

-- What of a list decodes.
abbrev pub decode_all {ℓ} : {A B : Type ℓ} → (A → Option B) → List A → List B
decode_all f [] = []
decode_all f (v ∷ vs) = let rest = decode_all f vs in elim (f v) [ none ↦ rest | some b ↦ b ∷ rest ]
