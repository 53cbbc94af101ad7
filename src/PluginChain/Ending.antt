-- ===== src/PluginChain/Ending.antt =====
-- handlePlugins ends, skips the plugins on the way to a call, and hands the same batches to both
-- channels (ws/hub.go).
use lightspeed_chat.Base.{
  ℕ, zero, suc, ◌+◌, ◌<◌, ◌≤◌, ◌≡◌, ◌≢◌, refl, sym, ap, ◌∙◌, Text, true, false, Option, none, some,
  List, [], ◌∷◌, ◌++◌, append-nil, append_assoc, if◌then◌else◌, Run, text_eq_iff, text_eq_refl, All,
  All-append, arith, Ensures, Ensures-imp, Ends, Ends-bind, Ensures-bind, Ensures-if,
}
use lightspeed_chat.Strings.{is_empty}
use lightspeed_chat.Types.{Room, Event}
use lightspeed_chat.Filter.{ExprLib}
use lightspeed_chat.Delivery.Filtering.{evaluate_plugin_filter_event-Ends}
use mathlib.Core.Path.{subst}
use lightspeed_chat.PluginChain.{
  PluginSpec, Plugins, member, Call, Hub, handle_events, pass_events, call_plugin, after_call,
  visit, range_plugins, handle_plugins,
}

-- How many plugins are not skipped.
abbrev pub left : Plugins → List Text → ℕ
left [] skip = 0
left ((name, plg) ∷ plugins) skip = (if member name skip then 0 else 1) + left plugins skip

left-cons_le :
    (plugins : Plugins) (name : Text) (skip : List Text)
    → left plugins (name ∷ skip) ≤ left plugins skip
left-cons_le [] name skip = omega arith
left-cons_le ((n, plg) ∷ plugins) name skip = ground (arith, left-cons_le plugins name skip)

-- The plugins behind a front of the map: one of them is no longer left once it is skipped.
left-cons_lt :
    (front : Plugins) (name : Text) (plg : PluginSpec) (plugins : Plugins) (skip : List Text)
    → member name skip ≡ false
    → left (front ++ ((name, plg) ∷ plugins)) (name ∷ skip)
      < left (front ++ ((name, plg) ∷ plugins)) skip
left-cons_lt [] name plg plugins skip h =
    ground (arith, left-cons_le plugins name skip, text_eq_refl name)
left-cons_lt ((n, p) ∷ front) name plg plugins skip h =
    ground (arith, left-cons_lt front name plg plugins skip h, text_eq_iff name n)

-- A call that handlePlugins may make while the plugins of `skip` are skipped.
pub record IsFair (skip : List Text) (c : Call) : Type 0 where
  pub fresh : member c.plugin c.skip ≡ false
  pub keeps : (k : Text) → member k skip ≡ true → member k c.skip ≡ true
  pub some_events : c.events ≢ []

-- What a run adds: fair calls, and the same batches, none of them empty, on both channels.
pub record Extends {W : Type 0} (skip : List Text) (h h' : Hub W) : Type 0 where
  pub calls : List Call
  pub batches : List (List Event)
  pub called : h'.calls ≡ h.calls ++ calls
  pub broadcast : h'.broadcast ≡ h.broadcast ++ batches
  pub history : h'.history ≡ h.history ++ batches
  pub fair : All (IsFair skip) calls
  pub filled : All (λ b. b ≢ []) batches

fewer_skipped :
    (name : Text) (skip : List Text) (cs : List Call)
    → All (IsFair (name ∷ skip)) cs
    → All (IsFair skip) cs
fewer_skipped name skip [] h = tt
fewer_skipped name skip (c ∷ cs) (f, fs) = (
  record {
    fresh = f.fresh;
    keeps = λ k m. f.keeps k (ground (arith, m));
    some_events = f.some_events;
  },
  fewer_skipped name skip cs fs,
)

module _ {W : Type 0} where
  Extends-refl : (skip : List Text) (h : Hub W) → Extends skip h h
  Extends-refl skip h = record {
    calls = [];
    batches = [];
    called = sym (append-nil h.calls);
    broadcast = sym (append-nil h.broadcast);
    history = sym (append-nil h.history);
    fair = tt;
    filled = tt;
  }

  Extends-trans :
      (skip : List Text) (h i j : Hub W) → Extends skip h i → Extends skip i j → Extends skip h j
  Extends-trans skip h i j p q = record {
    calls = p.calls ++ q.calls;
    batches = p.batches ++ q.batches;
    called = q.called ∙ ap (λ cs. cs ++ q.calls) p.called ∙ append_assoc h.calls p.calls q.calls;
    broadcast =
        q.broadcast
        ∙ ap (λ b. b ++ q.batches) p.broadcast
        ∙ append_assoc h.broadcast p.batches q.batches;
    history =
        q.history ∙ ap (λ b. b ++ q.batches) p.history ∙ append_assoc h.history p.batches q.batches;
    fair = All-append (IsFair skip) p.calls q.calls p.fair q.fair;
    filled = All-append (λ b. b ≢ []) p.batches q.batches p.filled q.filled;
  }

  Extends-skip :
      (name : Text) (skip : List Text) (h h' : Hub W)
      → Extends (name ∷ skip) h h'
      → Extends skip h h'
  Extends-skip name skip h h' e = record {
    calls = e.calls;
    batches = e.batches;
    called = e.called;
    broadcast = e.broadcast;
    history = e.history;
    fair = fewer_skipped name skip e.calls e.fair;
    filled = e.filled;
  }

  Extends-handle_events :
      (skip : List Text) (events : List Event) (h : Hub W) → Extends skip h (handle_events events h)
  unfolding handle_events
  Extends-handle_events skip [] h = Extends-refl skip h
  Extends-handle_events skip (e ∷ events) h = record {
    calls = [];
    batches = (e ∷ events) ∷ [];
    called = sym (append-nil h.calls);
    broadcast = refl;
    history = refl;
    fair = tt;
    filled = ((λ p. cc), tt);
  }

  Extends-call_plugin :
      (handle : Text → List Event → W → Option (List Event) × W) (lib : ExprLib) (room : Room)
      (name : Text) (skip : List Text) (events : List Event) (h : Hub W)
      → member name skip ≡ false
      → events ≢ []
      → Extends skip h (call_plugin lib room handle name skip events h).1
  unfolding call_plugin
  Extends-call_plugin handle lib room name skip events h fresh some_events = record {
    calls = record { plugin = name; skip = skip; events = events } ∷ [];
    batches = [];
    called = refl;
    broadcast = sym (append-nil h.broadcast);
    history = sym (append-nil h.history);
    fair = (record { fresh = fresh; keeps = λ k m. m; some_events = some_events }, tt);
    filled = tt;
  }

module _ (lib : ExprLib) (room : Room) {W : Type 0}
    (handle : Text → List Event → W → Option (List Event) × W) where
  pass_events-Ends : (f : Text) (events : List Event) → Ends (pass_events lib room handle f events)
  unfolding pass_events
  pass_events-Ends f [] = tt
  pass_events-Ends f (event ∷ events) =
      Ends-bind _ _
        (Ensures-if (λ _. Unit) (is_empty f) _ _ (λ _. tt)
          λ _. evaluate_plugin_filter_event-Ends lib room event f)
        λ b. Ends-bind _ _ (pass_events-Ends f events) λ rest. tt

  module _ (again : List Event → List Text → Hub W → Run (Hub W)) (name : Text) (skip : List Text)
      (again_Extends : (events : List Event) (h : Hub W)
        → Ensures (Extends (name ∷ skip) h) (again events (name ∷ skip) h)) where
    after_call-Extends :
        (r : Option (List Event) × Hub W)
        → Ensures (Extends skip r.1) (after_call lib room handle again name skip r)
    unfolding after_call
    after_call-Extends (none, h) = Extends-refl skip h
    after_call-Extends (some results, h) =
        Ensures-bind (Extends (name ∷ skip) h) (Extends skip h) _ _ (again_Extends results h) λ i e.
          Extends-trans skip h i (handle_events results i) (Extends-skip name skip h i e)
            (Extends-handle_events skip results i)

    visit-Extends :
        (plg : PluginSpec) (events : List Event) (h : Hub W)
        → member name skip ≡ false
        → Ensures (Extends skip h) (visit lib room handle again name plg events skip h)
    unfolding visit
    visit-Extends plg events h fresh =
        Ensures-bind (λ _. Unit {0}) (Extends skip h) _ _ (pass_events-Ends plg.event_filter events)
          λ passed _.
            Ensures-if (Extends skip h) (is_empty passed) _ _ (λ _. Extends-refl skip h)
              λ full.
                let r = call_plugin lib room handle name skip passed h in
                Ensures-imp (Extends skip r.1) (Extends skip h) _ (after_call-Extends r) λ i e.
                  Extends-trans skip h r.1 i
                    (Extends-call_plugin handle lib room name skip passed h fresh (λ q. cc)) e

  module _ (again : List Event → List Text → Hub W → Run (Hub W)) (plugins : Plugins)
      (skip : List Text)
      (again_Extends : (events : List Event) (skip' : List Text) (h : Hub W)
        → left plugins skip' < left plugins skip
        → Ensures (Extends skip' h) (again events skip' h)) where
    range_plugins-Extends :
        (front rest : Plugins) (events : List Event) (h : Hub W)
        → front ++ rest ≡ plugins
        → Ensures (Extends skip h) (range_plugins lib room handle again rest events skip h)
    unfolding range_plugins
    range_plugins-Extends front [] events h e = Extends-refl skip h
    range_plugins-Extends front ((name, plg) ∷ rest) events h e =
        Ensures-bind (Extends skip h) (Extends skip h) _ _
          (Ensures-if (Extends skip h) (member name skip) _ _ (λ _. Extends-refl skip h)
            λ fresh.
              visit-Extends again name skip
                (λ events' h'. again_Extends events' (name ∷ skip) h' (
                  subst (λ (ps : Plugins). left ps (name ∷ skip) < left ps skip) e
                    (left-cons_lt front name plg rest skip fresh)))
                plg events h fresh)
          λ i p.
            Ensures-imp (Extends skip i) (Extends skip h) _
              (range_plugins-Extends (front ++ ((name, plg) ∷ [])) rest events i
                (append_assoc front ((name, plg) ∷ []) rest ∙ e))
              λ j q. Extends-trans skip h i j p q

  -- With more fuel than plugins that are not skipped, handlePlugins does not run on, whatever the
  -- plugins return. Where no filter panics, it adds the same batches in the same order, none of them
  -- empty, to both channels, and it calls a plugin only with some event, and neither while that
  -- plugin is skipped at the start nor further down from one of its own calls.
  pub handle_plugins-Extends :
      (fuel : ℕ) (plugins : Plugins) (events : List Event) (skip : List Text) (h : Hub W)
      → left plugins skip < fuel
      → Ensures (Extends skip h) (handle_plugins lib room handle fuel plugins events skip h)
  unfolding handle_plugins
  handle_plugins-Extends zero plugins events skip h lt = elim lt [ ]
  handle_plugins-Extends (suc fuel) plugins events skip h lt =
      range_plugins-Extends (handle_plugins lib room handle fuel plugins) plugins skip
        (λ events' skip' h' less.
          handle_plugins-Extends fuel plugins events' skip' h' (omega arith))
        [] plugins events h refl
