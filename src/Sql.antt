-- ===== src/Sql.antt =====
-- The persister on SQLite (persistence/sqlite.go). The database engine, behind database/sql, and
-- encoding/json are parameters; the two locks are left out, since each operation holds them to its end.
pub mod Tables
pub mod Behaviour
pub mod Users
pub mod Rooms
pub mod Events
pub mod TagWrites
pub mod Rows
pub mod Transactions
pub mod Pages
pub mod Batches
pub mod ReadBack
pub mod Clients
pub mod Setup
use lightspeed_chat.Base.{ℤ, Text, Bool, Option, List}
use lightspeed_chat.Types.{Tags, Time, local}
use lightspeed_chat.Bunt.{Reply}
use lightspeed_chat.Sql.Tables.{UserRow, RoomRow, Match, Statement, Window}

-- What the rows of a query scan to until Next says that there are no more, none for an error of Scan.
-- The code never asks Err whether the iteration broke off.
abbrev pub Scans : Type 0 → Type 0
Scans A = List (Option A)

-- A row of `GetRooms`, whose columns of the owner may be NULL.
pub record RoomScan : Type 0 where
  pub id : Text
  pub room_tags : Text
  pub user_id : Option Text
  pub nick : Option Text
  pub language : Option Text
  pub last_online : Option ℤ
  pub user_tags : Option Text

-- `sql.DB`, `sql.Tx` and the JSON texts of tags. A call of QueryRow with Scan replies with the row,
-- with sql.ErrNoRows (`not_found`) or with another error.
pub record Engine : Type 1 where
  pub Db : Type 0
  pub Tx : Type 0
  pub exec : Statement → Db → Bool × Db
  pub query_user : Text → Db → Reply UserRow
  pub query_users : Db → Option (Scans (Text × UserRow))
  pub query_room : Text → Db → Reply (RoomRow × UserRow)
  pub query_rooms : Db → Option (Scans RoomScan)
  pub query_events : Window → Db → Option (Scans Match)
  pub begin : Db → Option Tx
  pub query_user_tags : Text → Tx → Reply Text
  pub query_room_tags : Text → Tx → Reply Text
  pub exec_in : Statement → Tx → Option Tx
  pub commit : Tx → Db → Bool × Db
  pub rollback : Tx → Db → Db
  pub marshal_tags : Option Tags → Option Text
  -- What `json.Unmarshal` leaves in an empty map, its error ignored: `null` makes the map nil.
  pub unmarshal_tags : Text → Option Tags

-- `time.Unix(seconds, 0)`
abbrev pub at_second : ℤ → Time
at_second seconds = record { unix = seconds; nanosecond = 0; zone = local }
