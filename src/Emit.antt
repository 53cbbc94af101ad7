-- ===== src/Emit.antt =====
-- What a plugin emits by itself (ws/events.go, EmitEvents): the filter in place over the backing
-- array, the clearing of its tail, and the way through the other plugins to the channels.
pub mod InPlace
pub mod Lookups
use lightspeed_chat.Base.{
  ℕ, zero, suc, ◌-◌, Text, Bool, Option, none, some, List, [], ◌∷◌, length, get_elem?, set, take,
  map, if◌then◌else◌, Run, returns, panics, ◌>>=◌, text_eq,
}
use lightspeed_chat.Types.{Room, Event}
use lightspeed_chat.Types.EventType
use lightspeed_chat.Filter.{ExprLib}
use lightspeed_chat.Delivery.{deref}
use lightspeed_chat.PluginChain.{Plugins, Hub, handle_events, handle_plugins}

-- The backing array of `events`: a cell is nil or points to an event.
abbrev pub Cells : Type 0
Cells = List (Option Event)

-- An element read by the range, then by its pointer.
abbrev pub element : Option (Option Event) → Run Event
element none = panics
element (some cell) = deref cell

-- The loop, with `m` rounds to go at index `i` and `k` events kept. `append` to keepEvents writes to
-- the same array, whose capacity suffices. Internal events have no effect yet.
unfoldable pub keep_loop : ℕ → ℕ → ℕ → Cells → Run (Cells × ℕ)
keep_loop zero i k cells = returns (cells, k)
keep_loop (suc m) i k cells = do
  event ← element (get_elem? cells i)
  (if text_eq event.name EventType.internal
      then keep_loop m (suc i) k cells
      else keep_loop m (suc i) (suc k) (set cells k (some event)))

-- `for i := len(keepEvents); i < len(events); i++ { events[i] = nil }`
unfoldable pub clear : ℕ → ℕ → Cells → Cells
clear zero i cells = cells
clear (suc m) i cells = clear m (suc i) (set cells i none)

-- keepEvents and the array after both loops.
unfoldable pub filter_in_place : Cells → Run (Cells × Cells)
unfolding keep_loop clear
filter_in_place cells = do
  (cells', k) ← keep_loop (length cells) 0 0 cells
  (let cleared = clear (length cells - k) k cells' in returns (take k cleared, cleared))

-- The events of a slice without nil.
unfoldable pub deref_all : Cells → Run (List Event)
deref_all [] = returns []
deref_all (cell ∷ cells) = do event ← deref cell; events ← deref_all cells; returns (event ∷ events)

module _ (lib : ExprLib) (room : Room) {W : Type 0}
    (handle : Text → List Event → W → Option (List Event) × W) where
  -- `emitEventsHelper.EmitEvents`; its error is always nil.
  unfoldable pub emit_events : ℕ → Plugins → Text → Cells → Hub W → Run (Hub W)
  unfolding filter_in_place deref_all
  emit_events fuel plugins plugin_name cells h = do
    (kept, cleared) ← filter_in_place cells
    events ← deref_all kept
    h' ← handle_plugins lib room handle fuel plugins events (plugin_name ∷ []) h
    returns (handle_events events h')
