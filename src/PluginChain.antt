-- ===== src/PluginChain.antt =====
-- The plugins of a hub: handlePlugins, handleEvents and the cron function of Run (ws/hub.go), with
-- plugins/types.go. The plugins themselves run as other programs: `handle` is HandleEvents, with a
-- state of the world that every call may change.
pub mod Passing
pub mod Ending
use lightspeed_chat.Base.{
  ℕ, zero, suc, Text, Bool, true, false, ◌||◌, Option, none, some, List, [], ◌∷◌, ◌++◌,
  if◌then◌else◌, Run, returns, panics, runs_on, ◌>>=◌, text_eq,
}
use lightspeed_chat.Strings.{is_empty}
use lightspeed_chat.Types.{Room, Event}
use lightspeed_chat.Filter.{ExprLib}
use lightspeed_chat.Delivery.{evaluate_plugin_filter_event}

pub record PluginSpec : Type 0 where
  pub cron_spec : Text
  pub event_filter : Text

-- `pluginMap`, in the order of its range.
abbrev pub Plugins : Type 0
Plugins = List (Text × PluginSpec)

-- The keys of a set such as skipPlugins.
abbrev pub member : Text → List Text → Bool
member k [] = false
member k (j ∷ ks) = text_eq j k || member k ks

-- A call of a plugin's HandleEvents: the plugin, the set of plugins to skip at that time, and the
-- events that were passed.
pub record Call : Type 0 where
  pub plugin : Text
  pub skip : List Text
  pub events : List Event

-- What a run has done so far: the calls of plugins, and the batches that were sent on the channels
-- BroadcastEvents and EventHistory. The channels' capacity is not modelled.
pub record Hub (W : Type 0) : Type 0 where
  pub world : W
  pub calls : List Call
  pub broadcast : List (List Event)
  pub history : List (List Event)

-- `Hub.handleEvents`; its error is always nil.
unfoldable pub handle_events : {W : Type 0} → List Event → Hub W → Hub W
handle_events [] h = h
handle_events (e ∷ events) h = record h {
  broadcast = h.broadcast ++ ((e ∷ events) ∷ []);
  history = h.history ++ ((e ∷ events) ∷ []);
}

module _ (lib : ExprLib) (room : Room) {W : Type 0}
    (handle : Text → List Event → W → Option (List Event) × W) where
  -- The loop that fills passEvents.
  unfoldable pub pass_events : Text → List Event → Run (List Event)
  pass_events event_filter [] = returns []
  pass_events event_filter (event ∷ events) = do
    passes ←
        (if is_empty event_filter
          then returns true
          else evaluate_plugin_filter_event lib room event event_filter)
    rest ← pass_events event_filter events
    returns (if passes then event ∷ rest else rest)

  -- The call of HandleEvents, with a record of it.
  unfoldable pub call_plugin : Text → List Text → List Event → Hub W → Option (List Event) × Hub W
  call_plugin name skip events h =
      let (result, world') = handle name events h.world in
      let call : Call = record { plugin = name; skip = skip; events = events } in
      (result, record h { world = world'; calls = h.calls ++ (call ∷ []) })

  -- What follows a call: on an error the next plugin; else the results go through the other
  -- plugins, `again`, and then to the channels.
  unfoldable pub after_call :
      (List Event → List Text → Hub W → Run (Hub W))
      → Text
      → List Text
      → Option (List Event) × Hub W
      → Run (Hub W)
  unfolding handle_events
  after_call again name skip (none, h) = returns h
  after_call again name skip (some results, h) = do
    h' ← again results (name ∷ skip) h
    returns (handle_events results h')

  -- A round of the range, for a plugin that is not skipped.
  unfoldable pub visit :
      (List Event → List Text → Hub W → Run (Hub W))
      → Text
      → PluginSpec
      → List Event
      → List Text
      → Hub W
      → Run (Hub W)
  unfolding call_plugin after_call
  visit again name plg events skip h = do
    passed ← pass_events plg.event_filter events
    (if is_empty passed
        then returns h
        else after_call again name skip (call_plugin name skip passed h))

  -- The range over the plugin map.
  unfoldable pub range_plugins :
      (List Event → List Text → Hub W → Run (Hub W))
      → Plugins
      → List Event
      → List Text
      → Hub W
      → Run (Hub W)
  unfolding visit
  range_plugins again [] events skip h = returns h
  range_plugins again ((name, plg) ∷ plugins) events skip h = do
    h' ← (if member name skip then returns h else visit again name plg events skip h)
    range_plugins again plugins events skip h'

  -- `Hub.handlePlugins`, on fuel for the depth of its recursion; its error is always nil.
  unfoldable pub handle_plugins : ℕ → Plugins → List Event → List Text → Hub W → Run (Hub W)
  unfolding range_plugins
  handle_plugins zero plugins events skip h = runs_on
  handle_plugins (suc fuel) plugins events skip h =
      range_plugins (handle_plugins fuel plugins) plugins events skip h

  -- The function that Run hands to cron for a plugin, once the plugin's Cron has been called: `none`
  -- is its error.
  unfoldable pub cron_job : ℕ → Plugins → Text → Option (List Event) → Hub W → Run (Hub W)
  unfolding handle_plugins
  cron_job fuel plugins name none h = returns h
  cron_job fuel plugins name (some events) h = do
    h' ← handle_plugins fuel plugins events (name ∷ []) h
    returns (handle_events events h')
