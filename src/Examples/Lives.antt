-- ===== src/Examples/Lives.antt =====
-- The theorem on the life of a client, at a whole life with a broadcast in it.
use lightspeed_chat.Base.{true, false, ◌≡◌, ◌⊎◌, refl, none, List, [], ◌∷◌}
use lightspeed_chat.Lifecycle.{
  Life, Action, greet_plugins, offer, admit, settle, start, greet, end_greeting, signal, end_loop,
  leave, find, remove, close, enter_broadcast, exit_broadcast, closed, new_life, step_at,
  interleave,
}
use lightspeed_chat.Lifecycle.Closing.{IsPluginLoop, interleave-closed}

-- The client of an identified user leaves while a broadcast is under way; PluginLoop outlives it.
abbrev whole_life : List Action
whole_life =
    offer
    ∷ admit
    ∷ settle
    ∷ start
    ∷ greet true
    ∷ end_greeting
    ∷ greet_plugins
    ∷ enter_broadcast
    ∷ signal
    ∷ end_loop
    ∷ end_greeting
    ∷ leave
    ∷ find
    ∷ exit_broadcast
    ∷ remove
    ∷ end_loop
    ∷ close
    ∷ []

abbrev ended : Life
ended = record new_life { stage = closed; plugin_loop = true; done = true; queue = 1; batches = 1 }

interleave-closed_example :
    (ended.loops ≡ 0)
    × (ended.readers ≡ 0)
    × (ended.broadcasts ≡ 0)
    × (ended.greetings ≡ 0)
    × (ended.greeter ≡ false)
    × ((action : Action) → IsPluginLoop action ⊎ (step_at action closed ended ≡ none))
unfolding interleave
interleave-closed_example = interleave-closed whole_life ended refl refl
