-- ===== src/Sql/Pages.antt =====
-- What GetEventHistory of persistence/sqlite.go returns: the oldest events of the room, not the newest.
use lightspeed_chat.Base.{
  ℕ, ℤ, pos, negsuc, ◌≤◌, Text, true, false, ltb_ℤ, eq_ℤ, text_eq_iff, ◌⊎◌, ◌≡◌, refl, sym, ap, ◌∙◌,
  subst, some, List, [], ◌∷◌, ◌++◌, append_assoc, map, take, drop, length, length-append,
  length-map, length-take-le, take-append_drop, All, All-imp, All-split, arith, Option-cases,
  Bool-cases, inl, inr, Dict,
}
use lightspeed_chat.Types.{Time, Room, Event}
use lightspeed_chat.Bunt.{ok}
use lightspeed_chat.Sql.{Engine, Scans}
use lightspeed_chat.Sql.Tables.{
  EventRow, Match, Database, Window, in_window, in_order, select_events, select_room,
}
use lightspeed_chat.Sql.Behaviour.{IsSql, IsPage, Arranges, IsOrdered}
use lightspeed_chat.Sql.Users.{read_all}
use lightspeed_chat.Sql.Events.{event_of_row, get_event_history}
use lightspeed_chat.Sql.Rows.{
  read_all-ReadsFirst, read_query-inversion, Arranges-All, IsOrdered-append,
}

-- Every row of the query is of the room and of the period.
select_events-in_window :
    (w : Window) (t : Database) (events : Dict EventRow)
    → All (λ (m : Match). in_window w m.event ≡ true) (select_events w t events)
unfolding select_events
select_events-in_window w t [] = tt
select_events-in_window w t ((id, event) ∷ events) = elim (Bool-cases (in_window w event)) [
  | inl within ↦ elim (Option-cases (select_room event.room_id t)) [
    | inl gone ↦ rw (within, gone) (select_events-in_window w t events)
    | inr (both, found) ↦ rw (within, found) (within, select_events-in_window w t events)
  ]
  | inr without ↦ rw without (select_events-in_window w t events)
]

-- The event is of the room, created at or after one second and before another one.
abbrev pub IsWithin : Text → ℤ → ℤ → EventRow → Type 0
IsWithin room_id from to event =
    (event.room_id ≡ room_id) × (ltb_ℤ event.created from ≡ false) × (ltb_ℤ event.created to ≡ true)

-- `a` was created in an earlier second than `b`, or in the same one and not before it.
abbrev pub Precedes : EventRow → EventRow → Type 0
Precedes a b =
    (ltb_ℤ a.created b.created ≡ true)
    ⊎ ((a.created ≡ b.created) × (b.created_sort ≤ a.created_sort))

eq_ℤ_lem : (m n : ℤ) → eq_ℤ m n ≡ true → m ≡ n
eq_ℤ_lem (pos m) (pos n) h = ground (arith, h)
eq_ℤ_lem (negsuc m) (negsuc n) h = ground (arith, h)
eq_ℤ_lem (pos m) (negsuc n) h = cc
eq_ℤ_lem (negsuc m) (pos n) h = cc

in_window_lem :
    (w : Window) (event : EventRow)
    → in_window w event ≡ true
    → IsWithin w.room_id w.from w.to event
in_window_lem w event h = ground (arith, h, text_eq_iff event.room_id w.room_id)

in_order_lem : (a b : Match) → in_order a b ≡ true → Precedes a.event b.event
in_order_lem a b h = elim (Bool-cases (ltb_ℤ a.event.created b.event.created)) [
  | inl earlier ↦ inl earlier
  | inr other ↦ inr (ground (arith, h, other, eq_ℤ_lem a.event.created b.event.created))
]

-- The first rows of a page, before those that are left.
pub record IsOldest (engine : Engine) (t : Database) (w : Window) (n : ℕ) (events : List Event)
    : Type 0 where
  pub shown : List Match
  pub left : List Match
  pub arranged : Arranges (shown ++ left) (select_events w t t.events)
  pub read : events ≡ map (event_of_row engine) shown
  pub bounded : length events ≤ n
  pub in_time : All (λ (m : Match). IsWithin w.room_id w.from w.to m.event) shown
  pub oldest : All (λ (a : Match). All (λ (b : Match). Precedes a.event b.event) left) shown

module _ (engine : Engine) (sql : IsSql engine) where
  open engine use {Db}
  open sql use {tables}

  abbrev pub window : Room → Time → Time → ℕ → Window
  window room from to n = record {
    room_id = room.id;
    from = from.unix;
    to = to.unix;
    limit = pos n;
    offset = pos 0;
  }

  page-IsOldest :
      (t : Database) (w : Window) (n : ℕ) (scans : Scans Match) (events : List Event)
      → w.limit ≡ pos n
      → w.offset ≡ pos 0
      → IsPage t w scans
      → read_all (event_of_row engine) scans ≡ ok events
      → IsOldest engine t w n events
  page-IsOldest t w n scans events el eo page done =
      let (shown, more, split, read) =
        read_all-ReadsFirst (event_of_row engine) (take n page.sorted) scans events
          (rw (el, eo) at page.shown) done in
      let whole : page.sorted ≡ shown ++ (more ++ drop n page.sorted) =
        sym (take-append_drop n page.sorted)
        ∙ ap (λ xs. xs ++ drop n page.sorted) split
        ∙ append_assoc shown more (drop n page.sorted) in
      let arranged = subst (λ xs. Arranges xs (select_events w t t.events)) whole page.arranged in
      record {
        shown = shown;
        left = more ++ drop n page.sorted;
        arranged = arranged;
        read = read;
        bounded = omega (
          arith,
          ap length read,
          length-map shown (event_of_row engine),
          ap length split,
          length-append shown more,
          length-take-le n page.sorted,
        );
        in_time =
            All-imp (λ (m : Match). in_window w m.event ≡ true)
              (λ (m : Match). IsWithin w.room_id w.from w.to m.event) (λ m. in_window_lem w m.event)
              shown
              (All-split (λ (m : Match). in_window w m.event ≡ true) shown _
                (Arranges-All (λ (m : Match). in_window w m.event ≡ true) _ _ arranged
                  (select_events-in_window w t t.events))).0;
        oldest =
            All-imp (λ (a : Match). All (λ b. in_order a b ≡ true) _)
              (λ (a : Match). All (λ (b : Match). Precedes a.event b.event) _)
              (λ a.
                All-imp (λ (b : Match). in_order a b ≡ true)
                  (λ (b : Match). Precedes a.event b.event) (λ b. in_order_lem a b) _)
              shown (IsOrdered-append shown _ (subst IsOrdered whole page.ordered));
      }

  -- On SQLite, with a maxCount and from the first row on, what GetEventHistory returns without
  -- error are at most maxCount events of the room, created in the seconds from the first to before the
  -- second instant, each of an earlier second than every other one that the query matches, or of the
  -- same second and not before it: those of the oldest seconds, not the newest, and within a second the
  -- latest.
  pub get_event_history-IsOldest :
      (room : Room) (from to : Time) (n : ℕ) (db : Db) (events : List Event)
      → get_event_history engine (some room) from to (pos 0) (pos n) db ≡ ok events
      → IsOldest engine (tables db) (window room from to n) n events
  unfolding get_event_history
  get_event_history-IsOldest room from to n db events h =
      let (scans, answered, done) =
        read_query-inversion (event_of_row engine) (engine.query_events (window room from to n) db)
          events h in
      page-IsOldest (tables db) (window room from to n) n scans events refl refl
        (sql.query_events-IsPage (window room from to n) db scans answered) done
