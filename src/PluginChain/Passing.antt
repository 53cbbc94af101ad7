-- ===== src/PluginChain/Passing.antt =====
-- Which events reach a plugin (the inner loop of handlePlugins in ws/hub.go, and
-- EvaluatePluginFilterEvent in ws/filter.go).
use lightspeed_chat.Base.{◌≡◌, ◌≢◌, refl, Text, Option, none, List, [], ◌∷◌, arith, All, returns}
use lightspeed_chat.Types.{Room, Event}
use lightspeed_chat.Filter.{ExprLib}
use lightspeed_chat.Delivery.{evaluate_plugin_filter_event}
use lightspeed_chat.PluginChain.{pass_events}

module _ (lib : ExprLib) (room : Room) {W : Type 0}
    (handle : Text → List Event → W → Option (List Event) × W) where
  -- Whatever the plugin's filter is, compilable or not, all events without a target filter are passed
  -- to the plugin.
  pub pass_events-untargeted :
      (f : Text) (events : List Event)
      → All (λ (e : Event). e.target_filter ≡ []) events
      → pass_events lib room handle f events ≡ returns events
  unfolding pass_events evaluate_plugin_filter_event
  pass_events-untargeted f [] h = refl
  pass_events-untargeted f (e ∷ events) (q, h) =
      ground (arith, q, pass_events-untargeted f events h)

  -- An event with a target filter is not passed to a plugin whose filter does not compile.
  pub pass_events-uncompiled :
      (f : Text) (events : List Event)
      → f ≢ []
      → lib.compile f ≡ none
      → All (λ (e : Event). e.target_filter ≢ []) events
      → pass_events lib room handle f events ≡ returns []
  unfolding pass_events evaluate_plugin_filter_event
  pass_events-uncompiled f [] nf c h = refl
  pass_events-uncompiled f (e ∷ events) nf c (q, h) =
      ground (arith, nf, c, q, pass_events-uncompiled f events nf c h)
