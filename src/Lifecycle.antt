-- ===== src/Lifecycle.antt =====
-- The life of one client at a hub: the Register and Unregister cases of Run (ws/hub.go), the handler
-- in cmd/lightspeed-chat/main.go that asks for both, the ends of the client's loops (ws/client.go) and
-- the goroutines that send to its channels under the hub's read lock. A step is what happens between
-- two points at which another goroutine may run. A step that waits, for a lock, a counter or room on a
-- channel, is not possible before.
pub mod Kept
pub mod Closing
use lightspeed_chat.Base.{
  ℕ, suc, ◌+◌, ◌-◌, Bool, true, false, ◌&&◌, not, Option, none, some, List, [], ◌∷◌, ltb, ◌==◌,
  if◌then◌else◌,
}

-- How far the handler, the hub and the goroutine of the Unregister case have come with the client.
pub data Stage : Type 0 where
  -- `NewClient`; `c.Add(1)` and `hub.Register <- c`; the Register case has put the client in
  -- `h.clients`; it has called `client.Done()`.
  created offered listed admitted : Stage
  -- `c.Add(2)`, ReadLoop and WriteLoop started; the handler's own goroutines started;
  -- `hub.Unregister <- c`.
  live greeting leaving : Stage
  -- The client was found in `h.clients`; it was deleted; its channels are closed.
  found removed closed : Stage

-- `sendChannelSize` and `pluginChannelSize`.
abbrev pub send_channel_size : ℕ
send_channel_size = 1000

abbrev pub plugin_channel_size : ℕ
plugin_channel_size = 1000

pub record Life : Type 0 where
  pub stage : Stage
  -- Whether the client is in `h.clients`, and the counter of its WaitGroup.
  pub member : Bool
  pub pending : ℕ
  -- How many of ReadLoop and WriteLoop run.
  pub loops : ℕ
  -- Whether PluginLoop runs, which the WaitGroup does not count, and whether doneChan is closed.
  pub plugin_loop : Bool
  pub done : Bool
  -- What the handler's WaitGroup `wg` counts: its goroutines that send the history and the event of the
  -- login to the hub, and whether the one runs that sends this event, without the lock, to
  -- `c.PluginChan`.
  pub greetings : ℕ
  pub greeter : Bool
  -- Goroutines that hold the read lock since they found the client in `h.clients`: those that send to
  -- it themselves, and those of a broadcast, each with a sender that the WaitGroup counts.
  pub readers : ℕ
  pub broadcasts : ℕ
  -- How much is in the buffers of `c.Send`, `c.SendEvents` and `c.PluginChan`.
  pub queue : ℕ
  pub slices : ℕ
  pub batches : ℕ

pub data Action : Type 0 where
  offer admit settle start leave find remove close : Action
  -- The handler's goroutines are started, for a user with an identity or without; one ends; the one that
  -- sends to `c.PluginChan` does so and ends.
  greet : Bool → Action
  end_greeting greet_plugins : Action
  -- ReadLoop closes doneChan; it or WriteLoop calls Done; PluginLoop returns.
  signal end_loop end_plugins : Action
  enter exit enter_broadcast exit_broadcast : Action
  -- A goroutine that holds the lock sends to `c.SendEvents` or `c.PluginChan`; WriteLoop sends to
  -- `c.Send`; the loops receive.
  send_slice send_batch send_own take_message take_slice take_batch : Action

abbrev pub new_life : Life
new_life = record {
  stage = created;
  member = false;
  pending = 0;
  loops = 0;
  plugin_loop = false;
  done = false;
  greetings = 0;
  greeter = false;
  readers = 0;
  broadcasts = 0;
  queue = 0;
  slices = 0;
  batches = 0;
}

-- A step that is possible under a condition only.
abbrev pub once : Bool → Life → Option Life
once b s = if b then some s else none

-- No one holds the read lock on account of this client, as `h.Lock()` demands.
abbrev pub is_unlocked : Life → Bool
is_unlocked s = s.readers + s.broadcasts == 0

unfoldable pub step_at : Action → Stage → Life → Option Life
step_at offer created s =
    some (record s { stage = offered; pending = suc s.pending; plugin_loop = true })
step_at admit offered s = once (is_unlocked s) (record s { stage = listed; member = true })
step_at settle listed s = some (record s { stage = admitted; pending = s.pending - 1 })
step_at start admitted s =
    once (s.pending == 0) (record s { stage = live; pending = s.pending + 2; loops = 2 })
step_at (greet identified) live s =
    some
      (record s { stage = greeting; greetings = if identified then 2 else 1; greeter = identified })
-- `wg.Wait()`, `<-doneChan` and the deferred `hub.Unregister <- c`.
step_at leave greeting s =
    once (s.greetings == 0 && not s.greeter && s.done) (record s { stage = leaving })
step_at find leaving s = once s.member (record s { stage = found })
step_at remove found s = once (is_unlocked s) (record s { stage = removed; member = false })
step_at close removed s = once (s.pending == 0) (record s { stage = closed })
step_at end_greeting _ s = once (ltb 0 s.greetings) (record s { greetings = s.greetings - 1 })
-- ReadLoop closes doneChan before it calls Done.
step_at signal _ s = once (ltb 0 s.loops && not s.done) (record s { done = true })
step_at end_plugins _ s = once (s.plugin_loop && s.done) (record s { plugin_loop = false })
step_at end_loop _ s =
    once (ltb 0 s.loops) (record s { loops = s.loops - 1; pending = s.pending - 1 })
step_at enter _ s = once s.member (record s { readers = suc s.readers })
step_at exit _ s = once (ltb 0 s.readers) (record s { readers = s.readers - 1 })
step_at enter_broadcast _ s =
    once s.member (record s { broadcasts = suc s.broadcasts; pending = suc s.pending })
-- `c.Send <- d` of a sender, its Done and the end of the broadcast.
step_at exit_broadcast _ s =
    once (ltb 0 s.broadcasts && ltb s.queue send_channel_size)
      (record s { broadcasts = s.broadcasts - 1; pending = s.pending - 1; queue = suc s.queue })
step_at send_slice _ s =
    once (ltb 0 s.readers && ltb s.slices send_channel_size) (record s { slices = suc s.slices })
step_at send_batch _ s =
    once (ltb 0 s.readers && ltb s.batches plugin_channel_size)
      (record s { batches = suc s.batches })
step_at greet_plugins _ s =
    once (s.greeter && ltb s.batches plugin_channel_size)
      (record s { greeter = false; batches = suc s.batches })
step_at send_own _ s =
    once (ltb 0 s.loops && ltb s.queue send_channel_size) (record s { queue = suc s.queue })
step_at take_message _ s = once (ltb 0 s.loops && ltb 0 s.queue) (record s { queue = s.queue - 1 })
step_at take_slice _ s = once (ltb 0 s.loops && ltb 0 s.slices) (record s { slices = s.slices - 1 })
step_at take_batch _ s =
    once (s.plugin_loop && ltb 0 s.batches) (record s { batches = s.batches - 1 })
step_at _ _ s = none

abbrev pub step : Action → Life → Option Life
step action s = step_at action s.stage s

-- An interleaving, none if one of its steps is not possible.
unfoldable pub interleave : List Action → Life → Option Life
unfolding step_at
interleave [] s = some s
interleave (action ∷ actions) s = elim (step_at action s.stage s) [
  | none ↦ none
  | some s' ↦ interleave actions s'
]
