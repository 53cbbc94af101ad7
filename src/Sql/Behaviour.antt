-- ===== src/Sql/Behaviour.antt =====
-- What the persister on SQLite relies on of the database engine, over the tables that it keeps.
use lightspeed_chat.Base.{
  Dict, lookup, ◌⊎◌, Text, Bool, true, false, ◌≡◌, Option, none, some, List, [], ◌∷◌, ◌++◌, All,
  map,
}
use mathlib.Core.Option
use lightspeed_chat.Bunt.{Reply, ok, not_found, other_error}
use lightspeed_chat.Sql.{Engine, Scans, RoomScan}
use lightspeed_chat.Sql.Tables.{
  UserRow, RoomRow, Match, Database, Statement, Window, apply, select_room, select_rooms,
  select_events, in_order, limit_rows, offset_rows,
}

-- An iteration shows the rows in their order, each scanned or with an error, and may break off.
abbrev pub Shows : {A : Type 0} → List A → List (Option A) → Type 0
Shows rows [] = Unit
Shows [] (scan ∷ scans) = ⊥
Shows (row ∷ rows) (scan ∷ scans) = ((scan ≡ none) ⊎ (scan ≡ some row)) × Shows rows scans

-- The first list holds what the second holds, each as often.
abbrev pub Arranges {ℓ} : {A : Type ℓ} → List A → List A → Type ℓ
Arranges [] ys = ys ≡ []
Arranges {A} (x ∷ xs) ys =
    (front : List A) × (behind : List A) × (ys ≡ front ++ (x ∷ behind))
    × Arranges xs (front ++ behind)

-- Ordered as the query of GetEventHistory asks.
abbrev pub IsOrdered : List Match → Type 0
IsOrdered [] = Unit
IsOrdered (row ∷ rows) = All (λ later. in_order row later ≡ true) rows × IsOrdered rows

-- A row of `GetRooms` as it is scanned.
abbrev pub room_scan : Text × (RoomRow × UserRow) → RoomScan
room_scan (id, (room, owner)) = record {
  id = id;
  room_tags = room.tags;
  user_id = some room.owner_id;
  nick = some owner.nick;
  language = some owner.language;
  last_online = some owner.last_online;
  user_tags = some owner.tags;
}

-- What a single row is read as: found or missing, where nothing goes wrong.
abbrev pub Answers : {A : Type 0} → Option A → Reply A → Type 0
Answers none reply = (reply ≡ not_found) ⊎ (reply ≡ other_error)
Answers (some row) reply = (reply ≡ ok row) ⊎ (reply ≡ other_error)

abbrev pub tags_of_user : UserRow → Text
tags_of_user row = row.tags

abbrev pub tags_of_room : RoomRow → Text
tags_of_room row = row.tags

-- A page of the events that match, in an order that the query allows.
pub record IsPage (t : Database) (w : Window) (scans : Scans Match) : Type 0 where
  pub sorted : List Match
  pub arranged : Arranges sorted (select_events w t t.events)
  pub ordered : IsOrdered sorted
  pub shown : Shows (limit_rows w.limit (offset_rows w.offset sorted)) scans

-- What SQLite documents of the statements, over the tables that a database and a transaction hold: a
-- statement takes effect or fails and changes nothing, a transaction starts from the database and
-- replaces it on commit. Without ORDER BY the order of the rows is the engine's.
pub record IsSql (engine : Engine) : Type 1 where
  pub enforced : Bool
  pub tables : engine.Db → Database
  pub tables_in : engine.Tx → Database
  pub exec-done :
      (s : Statement) (db db' : engine.Db)
      → engine.exec s db ≡ (true, db')
      → tables db' ≡ apply enforced s (tables db)
  pub exec-failed :
      (s : Statement) (db db' : engine.Db)
      → engine.exec s db ≡ (false, db')
      → tables db' ≡ tables db
  pub query_user-Answers :
      (id : Text) (db : engine.Db) → Answers (lookup id (tables db).users) (engine.query_user id db)
  pub query_room-Answers :
      (id : Text) (db : engine.Db) → Answers (select_room id (tables db)) (engine.query_room id db)
  pub query_users-Shows :
      (db : engine.Db) (scans : Scans (Text × UserRow))
      → engine.query_users db ≡ some scans
      → (rows : Dict UserRow) × Arranges rows (tables db).users × Shows rows scans
  pub query_rooms-Shows :
      (db : engine.Db) (scans : Scans RoomScan)
      → engine.query_rooms db ≡ some scans
      → (rows : Dict (RoomRow × UserRow)) × Arranges rows
          (select_rooms (tables db) (tables db).rooms)
        × Shows (map room_scan rows) scans
  pub query_events-IsPage :
      (w : Window) (db : engine.Db) (scans : Scans Match)
      → engine.query_events w db ≡ some scans
      → IsPage (tables db) w scans
  pub begin-tables :
      (db : engine.Db) (tx : engine.Tx) → engine.begin db ≡ some tx → tables_in tx ≡ tables db
  pub query_user_tags-Answers :
      (id : Text) (tx : engine.Tx)
      → Answers
          (Option.map tags_of_user (lookup id (tables_in tx).users))
          (engine.query_user_tags id tx)
  pub query_room_tags-Answers :
      (id : Text) (tx : engine.Tx)
      → Answers
          (Option.map tags_of_room (lookup id (tables_in tx).rooms))
          (engine.query_room_tags id tx)
  pub exec_in-done :
      (s : Statement) (tx tx' : engine.Tx)
      → engine.exec_in s tx ≡ some tx'
      → tables_in tx' ≡ apply enforced s (tables_in tx)
  pub commit-done :
      (tx : engine.Tx) (db db' : engine.Db)
      → engine.commit tx db ≡ (true, db')
      → tables db' ≡ tables_in tx
  pub commit-failed :
      (tx : engine.Tx) (db db' : engine.Db)
      → engine.commit tx db ≡ (false, db')
      → tables db' ≡ tables db
  pub rollback-tables :
      (tx : engine.Tx) (db : engine.Db) → tables (engine.rollback tx db) ≡ tables db
