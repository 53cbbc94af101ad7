-- ===== src/Gorm/Queries.antt =====
-- What gorm documents of a query on the events (persistence/gorm.go): the rows that meet its conditions, in
-- its order, from its offset on and up to its limit, each with the associations that it preloads.
use lightspeed_chat.Base.{
  ℤ, pos, negsuc, Text, codes, Bool, true, false, ◌&&◌, ◌||◌, not, ◌≡◌, ◌≢◌, Option, none, some,
  List, [], ◌∷◌, map, select, take, drop, All, ltb, ltb_ℤ, eq_ℤ, text_eq, if◌then◌else◌,
}
use lightspeed_chat.Types.{Time, Source, Event}
use lightspeed_chat.Sql.Behaviour.{Arranges}
use lightspeed_chat.Gorm.{Orm, EventQuery}

-- `a` is before `b`.
abbrev pub before : Time → Time → Bool
before a b = ltb_ℤ a.unix b.unix || eq_ℤ a.unix b.unix && ltb a.nanosecond b.nanosecond

-- `created BETWEEN from AND to`
abbrev pub in_period : Time → Time → Event → Bool
in_period from to event = not (before event.created from) && not (before to event.created)

abbrev pub in_room : Option Text → Event → Bool
in_room none event = true
in_room (some id) event = text_eq event.room_id id

abbrev pub meets : EventQuery → Event → Bool
meets q event = in_room q.of_room event && in_period q.created_from q.created_to event

-- `ORDER BY created DESC`
abbrev pub IsNewestFirst : List Event → Type 0
IsNewestFirst [] = Unit
IsNewestFirst (event ∷ events) =
    All (λ (later : Event). before event.created later.created ≡ false) events
    × IsNewestFirst events

-- `LIMIT` and `OFFSET`; a negative number takes the condition back.
abbrev pub limited : {A : Type 0} → ℤ → List A → List A
limited (pos n) rows = take n rows
limited (negsuc n) rows = rows

abbrev pub skipped : {A : Type 0} → ℤ → List A → List A
skipped (pos n) rows = drop n rows
skipped (negsuc n) rows = rows

abbrev pub preloaded : Text → List Text → Bool
preloaded name [] = false
preloaded name (preload ∷ preloads) = text_eq name preload || preloaded name preloads

-- An association, nil unless it is preloaded.
abbrev pub if_preloaded : {A : Type 0} → Text → List Text → Option A → Option A
if_preloaded name preloads association = if preloaded name preloads then association else none

abbrev pub load_source : List Text → Option Source → Option Source
load_source preloads none = none
load_source preloads (some source) =
    some (record source { user = if_preloaded (codes "User") preloads source.user })

abbrev pub load : List Text → Event → Event
load preloads event = record event {
  room = if_preloaded (codes "Room") preloads event.room;
  source = load_source preloads event.source;
}

-- The events that the database keeps, each with its associations, and what a query reads of them. A
-- limit of 0 is left open, since the versions of gorm differ in it.
pub record IsOrm {W : Type 0} (orm : Orm W) : Type 0 where
  pub stored : W → List Event
  pub find_events-page :
      (q : EventQuery) (w : W) (events : List Event)
      → orm.find_events q w ≡ some events
      → q.limit ≢ pos 0
      → (sorted : List Event) × Arranges sorted (select (meets q) (stored w))
        × (q.newest_first ≡ true → IsNewestFirst sorted)
        × (events ≡ map (load q.preloads) (limited q.limit (skipped q.offset sorted)))
