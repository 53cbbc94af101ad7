-- ===== src/Session/Stream.antt =====
-- A whole run of ReadLoop (ws/client.go), over any sequence of frames.
use lightspeed_chat.Base.{
  ◌≢◌, ◌≡◌, Option, none, some, List, [], ◌∷◌, Run, All, All-append, Ensures, Ensures-bind,
}
use lightspeed_chat.Types.{Event}
use lightspeed_chat.Types.Complete.{Holds}
use lightspeed_chat.Session.{
  SessionLib, UserStore, Effect, to_history, to_everyone, to_self, to_plugins, send_history, Turn,
  Session, Next, goes_on, closes, behind, then_next,
}
use lightspeed_chat.Session.Loop.{read_loop, read_frame}
use lightspeed_chat.Session.Publishing.{
  IsBy, Shows, IsHonest, session_of, effects_of, read_frame-IsHonest,
}
use lightspeed_chat.Types.{User, Source}

abbrev pub IsIdentified : Event → Type 0
IsIdentified event = Holds (λ source. Holds (λ u. u.id ≢ []) source.user) event.source

abbrev pub Exposes : Effect → Type 0
Exposes (to_history events) = All IsIdentified events
Exposes (to_everyone events) = All IsIdentified events
Exposes _ = Unit

by-IsIdentified : (user : User) (event : Event) → IsBy user event → IsIdentified event
by-IsIdentified user event h = go event.source h
  where
    inner :
        (o : Option User)
        → Holds (λ u. (u.id ≡ user.id) × (u.nick ≡ user.nick) × (u.id ≢ [])) o
        → Holds (λ u. u.id ≢ []) o
    inner none k = k
    inner (some u) k = k.2

    go :
        (o : Option Source)
        → Holds
            (λ source.
              Holds (λ u. (u.id ≡ user.id) × (u.nick ≡ user.nick) × (u.id ≢ [])) source.user)
            o
        → Holds (λ source. Holds (λ u. u.id ≢ []) source.user) o
    go none k = k
    go (some source) k = inner source.user k

all-IsIdentified :
    (user : User) (events : List Event) → All (IsBy user) events → All IsIdentified events
all-IsIdentified user [] h = tt
all-IsIdentified user (event ∷ events) h =
    (by-IsIdentified user event h.0, all-IsIdentified user events h.1)

Shows-Exposes :
    (user : User) (effects : List Effect) → All (Shows user) effects → All Exposes effects
Shows-Exposes user [] h = tt
Shows-Exposes user (to_history events ∷ effects) h =
    (all-IsIdentified user events h.0, Shows-Exposes user effects h.1)
Shows-Exposes user (to_everyone events ∷ effects) h =
    (all-IsIdentified user events h.0, Shows-Exposes user effects h.1)
Shows-Exposes user (to_self events ∷ effects) h = (tt, Shows-Exposes user effects h.1)
Shows-Exposes user (to_plugins events ∷ effects) h = (tt, Shows-Exposes user effects h.1)
Shows-Exposes user (send_history ∷ effects) h = (tt, Shows-Exposes user effects h.1)

module _ {W : Type 0} (lib : SessionLib) (users : Option (UserStore W)) where
  abbrev Exposed : Next W → Type 0
  Exposed next = All Exposes (effects_of next)

  behind-Exposed :
      (effects : List Effect) (next : Next W)
      → All Exposes effects
      → Exposed next
      → Exposed (behind effects next)
  behind-Exposed effects (goes_on s more) h g = All-append Exposes effects more h g
  behind-Exposed effects (closes s more) h g = All-append Exposes effects more h g

  after-Exposed :
      (next : Next W) (f : Session W → Run (Next W))
      → Exposed next
      → ((s : Session W) → Ensures Exposed (f s))
      → Ensures Exposed (then_next next f)
  after-Exposed (closes s effects) f h k = h
  after-Exposed (goes_on s effects) f h k =
      Ensures-bind Exposed Exposed (f s) _ (k s) (λ next g. behind-Exposed effects next h g)

  -- Whatever frames a client sends, logging in and out as it likes, every event that reaches the
  -- history or the other clients names a user with an identity: a guest without one posts nothing.
  pub read_loop-Exposed :
      (turns : List Turn) (s : Session W)
      → Ensures (λ next. All Exposes (effects_of next)) (read_loop lib users turns s)
  unfolding read_loop
  read_loop-Exposed [] s = tt
  read_loop-Exposed (turn ∷ turns) s =
      Ensures-bind IsHonest Exposed (read_frame lib users turn s) _
        (read_frame-IsHonest lib users turn s)
        (λ next honest.
          after-Exposed next (read_loop lib users turns)
            (Shows-Exposes (session_of next).user (effects_of next) honest)
            (read_loop-Exposed turns))
