-- ===== src/Emit/InPlace.antt =====
-- The filter in place keeps the events that are not internal.
use lightspeed_chat.Base.{
  ℕ, suc, ◌+◌, ◌-◌, ◌≡◌, refl, sym, ap, ◌∙◌, Bool, true, false, not, Option, none, some, List, [],
  ◌∷◌, ◌++◌, length, length-append, length-map, Text, get_elem?, set, take, map, select, replicate,
  Run, returns, ◌>>=◌, text_eq, arith, append_assoc, append-nil, Bool-cases, inl, inr,
}
use lightspeed_chat.Types.{Event}
use lightspeed_chat.Types.EventType
use lightspeed_chat.Types.{Room}
use lightspeed_chat.Filter.{ExprLib}
use lightspeed_chat.PluginChain.{Plugins, Hub, handle_events, handle_plugins}
use lightspeed_chat.Emit.{emit_events, Cells, keep_loop, clear, filter_in_place, deref_all}

abbrev pub is_public : Event → Bool
is_public event = not (text_eq event.name EventType.internal)

abbrev pub cells_of : List Event → Cells
cells_of = map some

module _ {A : Type 0} where
  get_elem?-append :
      (xs : List A) (y : A) (ys : List A) → get_elem? (xs ++ (y ∷ ys)) (length xs) ≡ some y
  get_elem?-append [] y ys = refl
  get_elem?-append (x ∷ xs) y ys = get_elem?-append xs y ys

  set-append :
      (xs : List A) (y z : A) (ys : List A) → set (xs ++ (y ∷ ys)) (length xs) z ≡ xs ++ (z ∷ ys)
  set-append [] y z ys = refl
  set-append (x ∷ xs) y z ys = rw (set-append xs y z ys)

-- What the loop ends with: the kept cells behind `front`, then stale cells.
abbrev Ended : Cells → Cells → List Event → Run (Cells × ℕ) → Type 0
Ended front stale events r =
    (stale' : Cells) × (length stale' + length (select is_public events)
      ≡ length stale + length events)
    × (r
        ≡ returns (
          front ++ (cells_of (select is_public events) ++ stale'),
          length front + length (select is_public events),
        ))

read_at :
    (front stale : Cells) (event : Event) (events : List Event)
    → get_elem? (front ++ (stale ++ cells_of (event ∷ events))) (length front + length stale)
      ≡ some (some event)
read_at front stale event events = cc (
  get_elem?-append (front ++ stale) (some event) (cells_of events),
  append_assoc front stale (cells_of (event ∷ events)),
  length-append front stale,
)

skip_one :
    (front stale : Cells) (event : Event) (events : List Event) (r : Run (Cells × ℕ))
    → is_public event ≡ false
    → Ended front (stale ++ (some event ∷ [])) events r
    → Ended front stale (event ∷ events) r
skip_one front stale event events r hidden (stale', n, e) = (
  stale',
  ground (arith, hidden, n, length-append stale (some event ∷ [])),
  ground (arith, hidden, e),
)

keep_one :
    (front stale stale₁ : Cells) (event : Event) (events : List Event) (r : Run (Cells × ℕ))
    → is_public event ≡ true
    → length stale₁ ≡ length stale
    → Ended (front ++ (some event ∷ [])) stale₁ events r
    → Ended front stale (event ∷ events) r
keep_one front stale stale₁ event events r shown same (stale', n, e) = (
  stale',
  ground (arith, shown, n, same),
  ground (
    arith,
    shown,
    e,
    length-append front (some event ∷ []),
    append_assoc front (some event ∷ []) (cells_of (select is_public events) ++ stale'),
  ),
)

-- A round of the loop, on an internal event and on another one.
round_hidden :
    (m i k : ℕ) (cells : Cells) (event : Event)
    → get_elem? cells i ≡ some (some event)
    → text_eq event.name EventType.internal ≡ true
    → keep_loop (suc m) i k cells ≡ keep_loop m (suc i) k cells
unfolding keep_loop
round_hidden m i k cells event at hidden = rw (at, hidden) refl

round_shown :
    (m i k : ℕ) (cells : Cells) (event : Event)
    → get_elem? cells i ≡ some (some event)
    → text_eq event.name EventType.internal ≡ false
    → keep_loop (suc m) i k cells ≡ keep_loop m (suc i) (suc k) (set cells k (some event))
unfolding keep_loop
round_shown m i k cells event at shown = rw (at, shown) refl

-- The stale cells once the event behind them has been kept.
abbrev shifted : Cells → Option Event → Cells
shifted [] e = []
shifted (old ∷ stale) e = stale ++ (e ∷ [])

length-shifted : (stale : Cells) (e : Option Event) → length (shifted stale e) ≡ length stale
length-shifted [] e = refl
length-shifted (old ∷ stale) e = omega (arith, length-append stale (e ∷ []))

set-shifted :
    (front stale : Cells) (e : Option Event) (rest : Cells)
    → set (front ++ (stale ++ (e ∷ rest))) (length front) e
      ≡ (front ++ (e ∷ [])) ++ (shifted stale e ++ rest)
set-shifted front [] e rest = set-append front e e rest ∙ sym (append_assoc front (e ∷ []) rest)
set-shifted front (old ∷ stale) e rest =
    set-append front old e (stale ++ (e ∷ rest))
    ∙ rw (append_assoc front (e ∷ []), append_assoc stale (e ∷ []) rest) refl

keep_loop_lem :
    (front stale : Cells) (events : List Event) (i k : ℕ) (cells : Cells)
    → i ≡ length front + length stale
    → k ≡ length front
    → cells ≡ front ++ (stale ++ cells_of events)
    → Ended front stale events (keep_loop (length events) i k cells)
keep_loop_lem front stale [] i k cells at kept layout =
    (stale, omega arith, unfold keep_loop in ground (arith, layout, append-nil stale))
keep_loop_lem front stale (event ∷ events) i k cells at kept layout =
    let here : get_elem? cells i ≡ some (some event) =
      ground (arith, layout, at, read_at front stale event events) in
    elim (Bool-cases (text_eq event.name EventType.internal)) [
      | inl hidden ↦ rw (round_hidden (length events) i k cells event here hidden) (
          skip_one front stale event events _ (ground (arith, hidden)) (
            keep_loop_lem front (stale ++ (some event ∷ [])) events (suc i) k cells
              (omega (arith, length-append stale (some event ∷ []))) kept
              (ground (arith, layout, append_assoc stale (some event ∷ []) (cells_of events)))))
      | inr shown ↦ rw (round_shown (length events) i k cells event here shown) (
          keep_one front stale (shifted stale (some event)) event events _ (ground (arith, shown))
            (length-shifted stale (some event))
            (keep_loop_lem (front ++ (some event ∷ [])) (shifted stale (some event)) events (suc i)
              (suc k) (set cells k (some event))
              (omega
                (arith, length-append front (some event ∷ []), length-shifted stale (some event)))
              (omega (arith, length-append front (some event ∷ [])))
              (ground
                (arith, layout, kept, set-shifted front stale (some event) (cells_of events)))))
    ]

clear_lem :
    (front stale : Cells) (i : ℕ)
    → i ≡ length front
    → clear (length stale) i (front ++ stale) ≡ front ++ replicate (length stale) none
unfolding clear
clear_lem front [] i at = refl
clear_lem front (old ∷ stale) i at =
    let step : set (front ++ (old ∷ stale)) i none ≡ (front ++ (none ∷ [])) ++ stale =
      rw at (set-append front old none stale ∙ sym (append_assoc front (none ∷ []) stale)) in
    ap (clear (length stale) (suc i)) step
    ∙ clear_lem (front ++ (none ∷ [])) stale (suc i)
        (omega (arith, length-append front (none ∷ [])))
    ∙ append_assoc front (none ∷ []) (replicate (length stale) none)

take-append : {A : Type 0} (xs ys : List A) → take (length xs) (xs ++ ys) ≡ xs
take-append [] ys = refl
take-append (x ∷ xs) ys = ap (λ t. x ∷ t) (take-append xs ys)

-- What is left to do after the first loop.
cleared_lem :
    (kept stale : Cells) (m k : ℕ)
    → k ≡ length kept
    → m ≡ length stale
    → ◌≡◌ {A = Cells × Cells}
        (take k (clear m k (kept ++ stale)), clear m k (kept ++ stale))
        (kept, kept ++ replicate m none)
cleared_lem kept stale m k at left =
    rw (left, at) (rw (clear_lem kept stale (length kept) refl, take-append) refl)

-- The slice without its internal events, and the array that holds them and nil behind them: the
-- filter in place neither panics nor keeps an internal event reachable.
pub filter_in_place_lem :
    (events : List Event)
    → filter_in_place (cells_of events)
      ≡ returns (
        cells_of (select is_public events),
        cells_of (select is_public events)
            ++ replicate (length events - length (select is_public events)) none,
      )
unfolding filter_in_place
filter_in_place_lem events =
    let (stale, n, e) = keep_loop_lem [] [] events 0 0 (cells_of events) refl refl refl in
    let shorter : length events - (0 + length (select is_public events)) ≡ length stale =
      omega (arith, n) in
    let remains : length events - length (select is_public events) ≡ length stale =
      omega (arith, n) in
    rw (length-map events some) (
      rw e (
        ap returns (
          cleared_lem (cells_of (select is_public events)) stale
            (length events - (0 + length (select is_public events)))
            (0 + length (select is_public events))
            (omega (arith, length-map (select is_public events) some)) shorter
          ∙ rw (shorter, remains) refl)))

deref_all-cells_of : (events : List Event) → deref_all (cells_of events) ≡ returns events
unfolding deref_all
deref_all-cells_of [] = refl
deref_all-cells_of (e ∷ events) = rw (deref_all-cells_of events) refl

module _ (lib : ExprLib) (room : Room) {W : Type 0}
    (handle : Text → List Event → W → Option (List Event) × W) where
  -- On a slice without nil, EmitEvents is handlePlugins, with the emitting plugin skipped, and then
  -- handleEvents, both on the events that are not internal.
  pub emit_events_lem :
      (fuel : ℕ) (plugins : Plugins) (name : Text) (events : List Event) (h : Hub W)
      → emit_events lib room handle fuel plugins name (cells_of events) h ≡ (
          handle_plugins lib room handle fuel plugins (select is_public events) (name ∷ []) h
          >>= λ h'. returns (handle_events (select is_public events) h'))
  unfolding emit_events
  emit_events_lem fuel plugins name events h =
      rw (filter_in_place_lem events) (rw (deref_all-cells_of (select is_public events)) refl)
