-- ===== src/Lifecycle/Closing.antt =====
-- Nobody sends to a client whose channels are closed.
use lightspeed_chat.Base.{◌+◌, ◌≡◌, ◌⊎◌, inl, inr, refl, subst, false, none, some, List, arith}
use lightspeed_chat.Lifecycle.{
  closed, Life, Action, offer, admit, settle, start, greet, end_greeting, greet_plugins, send_slice,
  send_batch, send_own, take_message, take_slice, take_batch, signal, end_loop, end_plugins, leave,
  find, remove, close, enter, exit, enter_broadcast, exit_broadcast, new_life, step_at, interleave,
}
use lightspeed_chat.Lifecycle.Kept.{SoundAt, interleave-IsSound, new_life-IsSound}

-- PluginLoop returns, or takes what is left on its channel.
abbrev pub IsPluginLoop : Action → Type 0
IsPluginLoop action = (action ≡ end_plugins) ⊎ (action ≡ take_batch)

stuck :
    (s : Life)
    → s.stage ≡ closed
    → s.member ≡ false
    → s.loops ≡ 0
    → s.readers ≡ 0
    → s.broadcasts ≡ 0
    → (s.greetings ≡ 0) × (s.greeter ≡ false)
    → (action : Action) → IsPluginLoop action ⊎ (step_at action s.stage s ≡ none)
unfolding step_at
stuck s at out idle quiet calm greeted offer = inr (rw at refl)
stuck s at out idle quiet calm greeted admit = inr (rw at refl)
stuck s at out idle quiet calm greeted settle = inr (rw at refl)
stuck s at out idle quiet calm greeted start = inr (rw at refl)
stuck s at out idle quiet calm greeted (greet identified) = inr (rw at refl)
stuck s at out idle quiet calm greeted leave = inr (rw at refl)
stuck s at out idle quiet calm greeted find = inr (rw at refl)
stuck s at out idle quiet calm greeted remove = inr (rw at refl)
stuck s at out idle quiet calm greeted close = inr (rw at refl)
stuck s at out idle quiet calm greeted end_plugins = inl (inl refl)
stuck s at out idle quiet calm greeted take_batch = inl (inr refl)
stuck s at out idle quiet calm greeted end_greeting = inr (ground (arith, greeted))
stuck s at out idle quiet calm greeted greet_plugins = inr (ground (arith, greeted))
stuck s at out idle quiet calm greeted send_slice = inr (ground (arith, quiet))
stuck s at out idle quiet calm greeted send_batch = inr (ground (arith, quiet))
stuck s at out idle quiet calm greeted send_own = inr (ground (arith, idle))
stuck s at out idle quiet calm greeted take_message = inr (ground (arith, idle))
stuck s at out idle quiet calm greeted take_slice = inr (ground (arith, idle))
stuck s at out idle quiet calm greeted signal = inr (ground (arith, idle))
stuck s at out idle quiet calm greeted end_loop = inr (ground (arith, idle))
stuck s at out idle quiet calm greeted enter = inr (ground (arith, out))
stuck s at out idle quiet calm greeted exit = inr (ground (arith, quiet))
stuck s at out idle quiet calm greeted enter_broadcast = inr (ground (arith, out))
stuck s at out idle quiet calm greeted exit_broadcast = inr (ground (arith, calm))

-- Whatever the interleaving, once the channels of a client are closed ReadLoop and WriteLoop have
-- ended, and so have the goroutines of its handler, of which one sends to it without the lock, and
-- every goroutine that found it under the lock; and all that can still happen to it is that PluginLoop
-- takes what is left on its channel or returns: there is neither a send on a closed channel nor a
-- second close. It is for a handler that asks for each of the two cases once.
pub interleave-closed :
    (actions : List Action) (s : Life)
    → interleave actions new_life ≡ some s
    → s.stage ≡ closed
    → (s.loops ≡ 0)
      × (s.readers ≡ 0)
      × (s.broadcasts ≡ 0)
      × (s.greetings ≡ 0)
      × (s.greeter ≡ false)
      × ((action : Action) → IsPluginLoop action ⊎ (step_at action s.stage s ≡ none))
interleave-closed actions s h at =
    let (fits, counted, left, greeted) =
      subst (λ t. SoundAt t s) at (interleave-IsSound actions new_life s new_life-IsSound h) in
    let gone : s.readers + s.broadcasts ≡ 0 = left fits.0 in
    let quiet : s.readers ≡ 0 = omega (arith, gone) in
    let calm : s.broadcasts ≡ 0 = omega (arith, gone) in
    (fits.1, quiet, calm, greeted.0, greeted.1, stuck s at fits.0 fits.1 quiet calm greeted)
