-- ===== src/Examples/Hubs.antt =====
-- The theorems on a hub's history, broadcast and filters, at concrete events (ws/hub.go, ws/filter.go,
-- ws/events.go, filter/tags.go, types/event.go).
use lightspeed_chat.Base.{
  ℕ, pos, Text, codes, true, set, lookup, text_eq, ◌≡◌, ◌⊎◌, refl, Option, some, List, [], ◌∷◌,
  ◌++◌, map, select, returns, ◌>>=◌, All, Ensures, arith, suc,
}
use lightspeed_chat.Types.{Event, Tags, TagUpdate}
use lightspeed_chat.Types.EventType
use lightspeed_chat.Types.Complete.{IsComplete, new_event-IsComplete}
use lightspeed_chat.Filter.TagUpdates.{update_tags, apply_update, as_int_slice}
use lightspeed_chat.Filter.TagUpdates.Update.{Updated, update_tags-Updated}
use lightspeed_chat.Filter.TagUpdates.Slices.{ints, apply_update-ints}
use lightspeed_chat.Strings.{split}
use lightspeed_chat.History.{get_history, load, history_size}
use lightspeed_chat.History.Window.{keep}
use lightspeed_chat.History.Reads.{store_all, persisted_events, get_history-load}
use mathlib.Core.List.{flatten}
use lightspeed_chat.Delivery.{Client, broadcast}
use lightspeed_chat.Delivery.Filtering.{hub_decision, client_decision, IsUsable, Differs, decisions}
use lightspeed_chat.Delivery.Recipients.{expected, broadcast_lem}
use lightspeed_chat.Emit.{emit_events}
use lightspeed_chat.Emit.InPlace.{is_public, cells_of, emit_events_lem}
use lightspeed_chat.PluginChain.{Plugins, Hub, handle_plugins, handle_events}
use lightspeed_chat.PluginChain.Ending.{Extends, handle_plugins-Extends}
use lightspeed_chat.Examples.{
  event_with, example_lib, ann, stranger, room, by_ann, stamp, chat_event, whisper, garbled, secret,
}

abbrev stored : ℕ → List ℕ
stored n = 1 ∷ 2 ∷ 3 ∷ []

abbrev received : List (List ℕ)
received = (4 ∷ []) ∷ (5 ∷ 6 ∷ []) ∷ []

get_history-load_example :
    get_history (store_all (load (pos 3) (some stored)) received)
    ≡ some
        (keep (history_size (pos 3)) (persisted_events (pos 3) (some stored) ++ flatten received))
get_history-load_example = get_history-load (pos 3) (some stored) received

abbrev clients : List Client
clients =
    record { number = 1; user = ann; language = codes "en" }
    ∷ record { number = 2; user = stranger; language = codes "de" }
    ∷ []

abbrev events : List Event
events = chat_event ∷ whisper ∷ garbled ∷ secret ∷ []

event_with-IsComplete : (name filter : Text) → IsComplete (event_with name filter)
event_with-IsComplete name filter =
    new_event-IsComplete stamp (some room) (some by_ann) filter (codes "en") name
      (some ((codes "message", codes "hi") ∷ []))

events-IsComplete : All IsComplete events
events-IsComplete = (
  event_with-IsComplete EventType.chat [],
  (
    event_with-IsComplete EventType.chat (codes "ann"),
    (
      event_with-IsComplete EventType.chat (codes "bad"),
      (event_with-IsComplete EventType.internal [], tt),
    ),
  ),
)

abbrev marshal : Event → Option Text
marshal event = some event.target_filter

broadcast_lem_example :
    broadcast example_lib marshal room clients events
    ≡ returns (map (expected example_lib marshal room clients) events)
broadcast_lem_example =
    broadcast_lem example_lib marshal room (tt, tt) clients events events-IsComplete

abbrev pub bob : Client
bob = record { number = 2; user = stranger; language = codes "de" }

decisions_example :
    (IsUsable example_lib room garbled
      × (hub_decision example_lib room bob garbled ≡ client_decision example_lib room bob garbled))
    ⊎ Differs example_lib room bob garbled
decisions_example = decisions example_lib room bob garbled

abbrev bump : TagUpdate
bump = record { name = codes "b"; type = pos 4; index = pos 1; expression = codes "x" }

abbrev updates : List TagUpdate
updates =
    record { name = codes "a"; type = pos 0; index = pos 0; expression = codes "x" }
    ∷ bump
    ∷ record { name = codes "c"; type = pos 0; index = pos 0; expression = [] }
    ∷ []

abbrev tags : Tags
tags = (codes "b", codes "1,2,3") ∷ (codes "c", codes "kept") ∷ []

update_tags-Updated_example :
    Ensures (Updated example_lib updates (some tags)) (update_tags example_lib (some tags) updates)
update_tags-Updated_example = update_tags-Updated example_lib updates (some tags)

apply_update-ints_example :
    (tags' : Tags) × (apply_update example_lib bump tags ≡ returns (tags', true))
    × (ints (codes "b") tags' ≡ set (ints (codes "b") tags) 1 (pos 7))
unfolding as_int_slice split lookup text_eq
apply_update-ints_example =
    apply_update-ints example_lib bump 1 true (pos 7) tags refl refl refl refl (omega arith)
      (omega arith)

abbrev plugins : Plugins
plugins =
    (codes "p", record { cron_spec = []; event_filter = [] })
    ∷ (codes "q", record { cron_spec = []; event_filter = codes "ann" })
    ∷ []

-- A plugin that answers with the events it is given, and counts its calls.
abbrev echo : Text → List Event → ℕ → Option (List Event) × ℕ
echo name given n = (some given, suc n)

abbrev idle : Hub ℕ
idle = record { world = 0; calls = []; broadcast = []; history = [] }

emit_events_lem_example :
    emit_events example_lib room echo 3 plugins (codes "p") (cells_of events) idle ≡ (
      handle_plugins example_lib room echo 3 plugins (select is_public events) (codes "p" ∷ []) idle
      >>= λ h. returns (handle_events (select is_public events) h))
emit_events_lem_example = emit_events_lem example_lib room echo 3 plugins (codes "p") events idle

handle_plugins-Extends_example :
    Ensures (Extends [] idle) (handle_plugins example_lib room echo 3 plugins events [] idle)
handle_plugins-Extends_example =
    handle_plugins-Extends example_lib room echo 3 plugins events [] idle (omega arith)
