-- ===== src/Gorm.antt =====
-- The persister on gorm (persistence/gorm.go). The database and gorm itself are parameters.
pub mod Queries
pub mod Loaded
use lightspeed_chat.Base.{
  ℤ, Text, codes, Bool, true, false, Option, none, some, List, [], ◌∷◌, map, if◌then◌else◌, text_eq,
  Run, returns, ◌>>=◌,
}
use lightspeed_chat.Strings.{is_empty}
use lightspeed_chat.Types.{Time, Tags, User, Room, Event, TagUpdate}
use lightspeed_chat.Filter.{ExprLib}
use lightspeed_chat.Filter.TagUpdates.{update_tags}
use lightspeed_chat.Bunt.{Reply, ok, not_found, other_error}
use lightspeed_chat.Sql.Users.{done_or_error}

-- A query on the events as it is built: the bounds of `created BETWEEN ? AND ?`, a condition on the room
-- if there is one, whether `created DESC` is the order, the limit and the offset, and the associations
-- that are preloaded.
pub record EventQuery : Type 0 where
  pub created_from : Time
  pub created_to : Time
  pub of_room : Option Text
  pub newest_first : Bool
  pub limit : ℤ
  pub offset : ℤ
  pub preloads : List Text

-- gorm.DB over a state of the database. `first_user` is `First(user)`, which reads over the user that
-- is given and replies with gorm.ErrRecordNotFound (`not_found`) or another error; `find_users` is what
-- Find has read, and whether it did so without error; `commits` says whether a transaction's changes
-- reach the database.
pub record Orm (W : Type 0) : Type 0 where
  -- `Clauses(clause.OnConflict{UpdateAll: true}).Create(&user)`
  pub upsert_user : User → W → Bool × W
  pub upsert_room : Room → W → Bool × W
  pub first_user : User → W → Reply User
  pub first_room : Room → W → Reply Room
  pub find_users : W → List User × Bool
  pub find_rooms : W → List Room × Bool
  pub delete_user : User → W → Bool × W
  pub delete_room : Room → W → Bool × W
  -- `tx.Model(user).Update("tags", tags)`
  pub set_user_tags : User → Option Tags → W → Option W
  pub set_room_tags : Room → Option Tags → W → Option W
  pub create_events : List (Option Event) → W → Bool × W
  pub find_events : EventQuery → W → Option (List Event)
  pub commits : W → Bool
  -- `postgres.Open` and `sqlite.Open` with `gorm.Open`, and the migration.
  pub open_postgres : Text → Option W
  pub open_sqlite : Text → Option W
  pub auto_migrate : W → Option W

-- The part of PersistenceConfig that gorm reads.
pub record GormConfig : Type 0 where
  pub type : Text
  pub dsn : Text

-- `return list, err`
abbrev pub list_or_error : {A : Type 0} → List A × Bool → Reply (List A)
list_or_error (found, true) = ok found
list_or_error (found, false) = other_error

module _ {W : Type 0} (orm : Orm W) where
  -- `gorm.Open` with the dialect of the configuration, none for an error.
  unfoldable pub open_db : GormConfig → Option W
  open_db cfg =
      if text_eq cfg.type (codes "postgres")
      then orm.open_postgres cfg.dsn
      else if text_eq cfg.type (codes "sqlite")
      then orm.open_sqlite cfg.dsn
      else none

  abbrev pub migrate : Option W → Reply (Option W)
  migrate none = other_error
  migrate (some db) = elim (orm.auto_migrate db) [ none ↦ other_error | some db' ↦ ok (some db') ]

  -- `NewGormPersister` with `setupGormDB`: no persister without a data source name.
  unfoldable pub new_persister : GormConfig → Reply (Option W)
  unfolding open_db
  new_persister cfg = if is_empty cfg.dsn then ok none else migrate (open_db cfg)

  unfoldable pub store_user : User → W → Reply (Unit {0}) × W
  store_user user w = done_or_error (orm.upsert_user user w)

  unfoldable pub get_user : User → W → Reply User
  get_user user w = orm.first_user user w

  unfoldable pub get_users : W → Reply (List User)
  get_users w = list_or_error (orm.find_users w)

  -- The end of `p.db.Transaction`: an error of the body or of the commit takes the changes back.
  abbrev pub end_transaction : {A : Type 0} → W → A → Option W → Reply A × W
  end_transaction w a none = (other_error, w)
  end_transaction w a (some w') = if orm.commits w' then (ok a, w') else (other_error, w)

  -- What follows First in the transaction of UpdateUserTags and UpdateRoomTags: `tags_of` reads and
  -- `put` replaces the tags, and `set` writes them.
  abbrev pub retag :
      {A : Type 0} (lib : ExprLib)
      → (A → Option Tags)
      → (A → Option Tags → A)
      → (A → Option Tags → W → Option W)
      → List TagUpdate
      → W
      → Reply A
      → Run (Reply (A × List Bool) × W)
  retag lib tags_of put set updates w not_found = returns (not_found, w)
  retag lib tags_of put set updates w other_error = returns (other_error, w)
  retag lib tags_of put set updates w (ok a) = do
    (tags, oks) ← update_tags lib (tags_of a) updates
    returns (end_transaction w (put a tags, oks) (set (put a tags) tags w))

  unfoldable pub update_user_tags :
      (lib : ExprLib) → User → List TagUpdate → W → Run (Reply (User × List Bool) × W)
  update_user_tags lib user updates w =
      retag lib (λ u. u.tags) (λ u tags. record u { tags = tags }) orm.set_user_tags updates w
        (orm.first_user user w)

  unfoldable pub delete_user : User → W → Reply (Unit {0}) × W
  delete_user user w = done_or_error (orm.delete_user user w)

  unfoldable pub store_room : Room → W → Reply (Unit {0}) × W
  store_room room w = done_or_error (orm.upsert_room room w)

  unfoldable pub get_room : Room → W → Reply Room
  get_room room w = orm.first_room room w

  unfoldable pub delete_room : Room → W → Reply (Unit {0}) × W
  delete_room room w = done_or_error (orm.delete_room room w)

  unfoldable pub get_rooms : W → Reply (List Room)
  get_rooms w = list_or_error (orm.find_rooms w)

  unfoldable pub update_room_tags :
      (lib : ExprLib) → Room → List TagUpdate → W → Run (Reply (Room × List Bool) × W)
  update_room_tags lib room updates w =
      retag lib (λ r. r.tags) (λ r tags. record r { tags = tags }) orm.set_room_tags updates w
        (orm.first_room room w)

  unfoldable pub store_events : Option Room → List (Option Event) → W → Reply (Unit {0}) × W
  store_events room events w = done_or_error (orm.create_events events w)

  abbrev pub from_history : Event → Event
  from_history event = record event { history = true }

  abbrev pub history_or_error : Option (List Event) → Reply (List Event)
  history_or_error none = other_error
  history_or_error (some events) = ok (map from_history events)

  -- `Where("created BETWEEN ? AND ?", from, to).Order("created DESC").Limit(max).Offset(idx)`
  abbrev pub history_query : Time → Time → ℤ → ℤ → EventQuery
  history_query from to from_idx max_count = record {
    created_from = from;
    created_to = to;
    of_room = none;
    newest_first = true;
    limit = max_count;
    offset = from_idx;
    preloads = [];
  }

  -- The room is not asked for.
  unfoldable pub get_event_history : Option Room → Time → Time → ℤ → ℤ → W → Reply (List Event)
  get_event_history room from to from_idx max_count w =
      history_or_error (orm.find_events (history_query from to from_idx max_count) w)
