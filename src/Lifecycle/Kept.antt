-- ===== src/Lifecycle/Kept.antt =====
-- What every step of a client's life keeps: what its WaitGroup counts, and who may hold the lock.
use lightspeed_chat.Base.{
  ℕ, suc, ◌+◌, ◌-◌, ◌&&◌, not, ◌≡◌, refl, sym, ◌∙◌, subst, Bool, true, false, Option, none, some,
  List, [], ◌∷◌, ltb, arith,
}
use lightspeed_chat.Lifecycle.{
  Stage, created, offered, listed, admitted, live, greeting, leaving, found, removed, closed, Life,
  Action, offer, admit, settle, start, greet, end_greeting, greet_plugins, send_slice, send_batch,
  send_own, take_message, take_slice, take_batch, send_channel_size, plugin_channel_size, signal,
  end_loop, end_plugins, leave, find, remove, close, enter, exit, enter_broadcast, exit_broadcast,
  new_life, once, step_at, interleave,
}

-- One for the Add before the registration, while the hub has not called Done.
abbrev pub owed : Stage → ℕ
owed offered = 1
owed listed = 1
owed _ = 0

-- What is known at a stage of the membership and of the loops.
abbrev pub Fits : Stage → Bool → ℕ → Type 0
Fits created member loops = (member ≡ false) × (loops ≡ 0)
Fits offered member loops = (member ≡ false) × (loops ≡ 0)
Fits listed member loops = (member ≡ true) × (loops ≡ 0)
Fits admitted member loops = (member ≡ true) × (loops ≡ 0)
Fits live member loops = member ≡ true
Fits greeting member loops = member ≡ true
Fits leaving member loops = member ≡ true
Fits found member loops = member ≡ true
Fits removed member loops = member ≡ false
Fits closed member loops = (member ≡ false) × (loops ≡ 0)

-- The handler has goroutines at one stage only.
abbrev pub Greets : Stage → ℕ → Bool → Type 0
Greets greeting greetings greeter = Unit
Greets _ greetings greeter = (greetings ≡ 0) × (greeter ≡ false)

abbrev pub SoundAt : Stage → Life → Type 0
SoundAt stage s =
    Fits stage s.member s.loops
    × (s.pending ≡ s.loops + s.broadcasts + owed stage)
    × (s.member ≡ false → s.readers + s.broadcasts ≡ 0)
    × Greets stage s.greetings s.greeter

abbrev pub IsSound : Life → Type 0
IsSound s = SoundAt s.stage s

abbrev pub Kept : Option Life → Type 0
Kept none = Unit
Kept (some s) = IsSound s

once-Kept : (b : Bool) (s : Life) → (b ≡ true → IsSound s) → Kept (once b s)
once-Kept true s h = h refl
once-Kept false s h = tt

Fits-fewer :
    (stage : Stage) (member : Bool) (loops : ℕ)
    → ltb 0 loops ≡ true
    → Fits stage member loops
    → Fits stage member (loops - 1)
Fits-fewer created member loops h f = ground (arith, h, f)
Fits-fewer offered member loops h f = ground (arith, h, f)
Fits-fewer listed member loops h f = ground (arith, h, f)
Fits-fewer admitted member loops h f = ground (arith, h, f)
Fits-fewer live member loops h f = f
Fits-fewer greeting member loops h f = f
Fits-fewer leaving member loops h f = f
Fits-fewer found member loops h f = f
Fits-fewer removed member loops h f = f
Fits-fewer closed member loops h f = ground (arith, h, f)

Greets-fewer :
    (stage : Stage) (n : ℕ) (b : Bool) → ltb 0 n ≡ true → Greets stage n b → Greets stage (n - 1) b
Greets-fewer greeting n b h g = tt
Greets-fewer _ n b h g = ground (arith, g)

Greets-sent : (stage : Stage) (n : ℕ) (b : Bool) → Greets stage n b → Greets stage n false
Greets-sent greeting n b g = tt
Greets-sent _ n b g = (g.0, refl)

-- A step that leaves the stage.
unchanged-Kept :
    (stage : Stage) (s t : Life) (b : Bool)
    → s.stage ≡ stage
    → SoundAt stage t
    → t.stage ≡ s.stage
    → Kept (once b t)
unchanged-Kept stage s t b at sound same =
    once-Kept b t (λ _. subst (λ x. SoundAt x t) (sym (same ∙ at)) sound)

pub step-Kept :
    (action : Action) (stage : Stage) (s : Life)
    → s.stage ≡ stage
    → SoundAt stage s
    → Kept (step_at action stage s)
unfolding step_at
step-Kept offer created s at sound = ground (arith, sound)
step-Kept admit offered s at sound = once-Kept _ _ (λ e. ground (arith, sound, e))
step-Kept start admitted s at sound = once-Kept _ _ (λ e. ground (arith, sound, e))
step-Kept settle listed s at sound = ground (arith, sound)
step-Kept (greet identified) live s at (fits, counted, left, quiet) = (fits, counted, left, tt)
step-Kept leave greeting s at sound = once-Kept _ _ (λ e. ground (arith, sound, e))
step-Kept end_greeting stage s at (fits, counted, left, greets) =
    once-Kept (ltb 0 s.greetings) (record s { greetings = s.greetings - 1 })
      (λ e.
        subst (λ t. SoundAt t (record s { greetings = s.greetings - 1 })) (sym at)
          (fits, counted, left, Greets-fewer stage s.greetings s.greeter e greets))
step-Kept signal stage s at sound =
    unchanged-Kept stage s (record s { done = true }) (ltb 0 s.loops && not s.done) at sound refl
step-Kept end_plugins stage s at sound =
    unchanged-Kept stage s (record s { plugin_loop = false }) (s.plugin_loop && s.done) at sound
      refl
step-Kept find leaving s at sound = once-Kept _ _ (λ e. ground (arith, sound, e))
step-Kept remove found s at sound = once-Kept _ _ (λ e. ground (arith, sound, e))
step-Kept close removed s at sound = once-Kept _ _ (λ e. ground (arith, sound, e))
step-Kept end_loop stage s at (fits, counted, left, greets) =
    once-Kept (ltb 0 s.loops) (record s { loops = s.loops - 1; pending = s.pending - 1 })
      (λ e.
        subst (λ t. SoundAt t (record s { loops = s.loops - 1; pending = s.pending - 1 })) (sym at)
          (Fits-fewer stage s.member s.loops e fits, ground (arith, counted, e), left, greets))
step-Kept enter stage s at (fits, counted, left, greets) =
    once-Kept s.member (record s { readers = suc s.readers })
      (λ e.
        subst (λ t. SoundAt t (record s { readers = suc s.readers })) (sym at)
          (fits, counted, λ out. cc, greets))
step-Kept exit stage s at (fits, counted, left, greets) =
    once-Kept (ltb 0 s.readers) (record s { readers = s.readers - 1 })
      (λ e.
        subst (λ t. SoundAt t (record s { readers = s.readers - 1 })) (sym at)
          (fits, counted, λ out. omega (arith, left out), greets))
step-Kept enter_broadcast stage s at (fits, counted, left, greets) =
    once-Kept s.member (record s { broadcasts = suc s.broadcasts; pending = suc s.pending })
      (λ e.
        subst (λ t. SoundAt t (record s { broadcasts = suc s.broadcasts; pending = suc s.pending }))
          (sym at) (fits, omega (arith, counted), λ out. cc, greets))
step-Kept exit_broadcast stage s at (fits, counted, left, greets) =
    once-Kept (ltb 0 s.broadcasts && ltb s.queue send_channel_size)
      (record s { broadcasts = s.broadcasts - 1; pending = s.pending - 1; queue = suc s.queue })
      (λ e.
        subst
          (λ t. SoundAt t (record s {
            broadcasts = s.broadcasts - 1;
            pending = s.pending - 1;
            queue = suc s.queue;
          }))
          (sym at) (fits, ground (arith, counted, e), λ out. omega (arith, left out), greets))
step-Kept greet_plugins stage s at (fits, counted, left, greets) =
    unchanged-Kept stage s (record s { greeter = false; batches = suc s.batches })
      (s.greeter && ltb s.batches plugin_channel_size) at
      (fits, counted, left, Greets-sent stage s.greetings s.greeter greets) refl
step-Kept send_slice stage s at sound =
    unchanged-Kept stage s (record s { slices = suc s.slices })
      (ltb 0 s.readers && ltb s.slices send_channel_size) at sound refl
step-Kept send_batch stage s at sound =
    unchanged-Kept stage s (record s { batches = suc s.batches })
      (ltb 0 s.readers && ltb s.batches plugin_channel_size) at sound refl
step-Kept send_own stage s at sound =
    unchanged-Kept stage s (record s { queue = suc s.queue })
      (ltb 0 s.loops && ltb s.queue send_channel_size) at sound refl
step-Kept take_message stage s at sound =
    unchanged-Kept stage s (record s { queue = s.queue - 1 }) (ltb 0 s.loops && ltb 0 s.queue) at
      sound refl
step-Kept take_slice stage s at sound =
    unchanged-Kept stage s (record s { slices = s.slices - 1 }) (ltb 0 s.loops && ltb 0 s.slices) at
      sound refl
step-Kept take_batch stage s at sound =
    unchanged-Kept stage s (record s { batches = s.batches - 1 }) (s.plugin_loop && ltb 0 s.batches)
      at sound refl
step-Kept action stage s at sound = tt

pub interleave-IsSound :
    (actions : List Action) (s s' : Life) → IsSound s → interleave actions s ≡ some s' → IsSound s'
unfolding interleave
interleave-IsSound [] s s' sound h = subst Kept h sound
interleave-IsSound (action ∷ actions) s s' sound h =
    go (step_at action s.stage s) refl (step-Kept action s.stage s refl sound)
      (λ next kept k. interleave-IsSound actions next s' kept k)
  where
    go :
        (o : Option Life)
        → step_at action s.stage s ≡ o
        → Kept o
        → ((next : Life) → IsSound next → interleave actions next ≡ some s' → IsSound s')
        → IsSound s'
    go none e kept ih = ground (arith, e, h)
    go (some next) e kept ih = ih next kept (ground (arith, e, h))

pub new_life-IsSound : IsSound new_life
new_life-IsSound = ((refl, refl), refl, λ _. refl, (refl, refl))
