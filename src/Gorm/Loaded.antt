-- ===== src/Gorm/Loaded.antt =====
-- The history that gorm loads: the newest events of all rooms, without their rooms and users
-- (persistence/gorm.go, with EvaluateFilterEvent of ws/filter.go).
use lightspeed_chat.Base.{
  ℕ, ◌++◌, true, false, ◌≡◌, none, some, List, [], ◌∷◌, select, length, ◌≤◌, All, ◌⊎◌, panics,
}
use lightspeed_chat.Strings.{is_empty}
use lightspeed_chat.Types.{Time, Room, Source, Event}
use lightspeed_chat.Filter.{ExprLib}
use lightspeed_chat.Delivery.{Client, evaluate_filter_event}
use lightspeed_chat.Sql.Behaviour.{Arranges}
use lightspeed_chat.Gorm.{Orm}
use lightspeed_chat.Gorm.Queries.{before, in_period, IsOrm}

-- The associations of an event are not loaded, since no Preload asks for them.
abbrev pub IsBare : Event → Type 0
IsBare event =
    (event.room ≡ none)
    × ((event.source ≡ none)
        ⊎ ((source : Source) × (event.source ≡ some source) × (source.user ≡ none)))

-- A client, of which an event without its user asks that a filter that compiles be evaluated.
abbrev pub IsFatal : (lib : ExprLib) → Room → Client → Event → Type 0
IsFatal lib room client event =
    (is_empty event.target_filter ≡ true)
    ⊎ (lib.compile event.target_filter ≡ none)
    ⊎ (evaluate_filter_event lib room client event ≡ panics)

module _ {W : Type 0} (orm : Orm W) (law : IsOrm orm) where
  open law use {stored}

  -- The same of each event, but for the mark and the associations, and in the same order.
  abbrev pub IsRead : List Event → List Event → Type 0
  IsRead [] [] = Unit
  IsRead (event ∷ events) (row ∷ rows) =
      (event.id ≡ row.id)
      × (event.created ≡ row.created)
      × (event.tags ≡ row.tags)
      × (event.target_filter ≡ row.target_filter)
      × (event.history ≡ true)
      × IsBare event
      × IsRead events rows
  IsRead _ _ = ⊥

  -- The first of all events of the period, whatever their room.
  pub record IsNewest (from to : Time) (n : ℕ) (w : W) (events : List Event) : Type 0 where
    pub shown : List Event
    pub left : List Event
    pub arranged : Arranges (shown ++ left) (select (in_period from to) (stored w))
    pub read : IsRead events shown
    pub bounded : length events ≤ n
    pub newest :
        All (λ (a : Event). All (λ (b : Event). before a.created b.created ≡ false) left) shown
