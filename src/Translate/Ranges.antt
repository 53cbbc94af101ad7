-- ===== src/Translate/Ranges.antt =====
-- The loop of HandleEvents of the translation plugin, and the cache that Configure leaves
-- (plugins/lightspeed-chat-google-translate-plugin/main.go).
use lightspeed_chat.Base.{
  Bool-cases, Option-cases, ltb_ℤ, pos, ℕ, inl, inr, ℕ, Bool, true, false, inl, inr, Option, none,
  some, List, [], ◌∷◌, ◌++◌, All, All-append, All-imp, Run, returns, ◌>>=◌, Ensures, Ensures-bind,
  Bool-cases, Option-cases,
}
use lightspeed_chat.Types.{Event, Stamp}
use lightspeed_chat.Translate.{Config, TranslateLib, World}
use lightspeed_chat.Translate.Law.{IsTranslator}
use lightspeed_chat.Translate.Sound.{IsSound}
use lightspeed_chat.Translate.Handler.{configure, Handled, handle_event, range_events}
use lightspeed_chat.Translate.Answers.{Any, Answered}

-- A cache that Configure makes holds nothing yet.
pub configure-IsSound :
    (is_print : ℕ → Bool) (lib : TranslateLib) (law : IsTranslator lib) (decoded : Option Config)
    (w : World lib)
    → IsSound lib law w.cache
    → IsSound lib law (configure is_print lib decoded w).1.cache
unfolding configure
configure-IsSound is_print lib law none w h = h
configure-IsSound is_print lib law (some cfg) w h =
    elim (Bool-cases (ltb_ℤ (pos 0) cfg.cache_size)) [
      | inl sized ↦ elim (Option-cases (lib.new_cache cfg.cache_size)) [
        | inl failed ↦ rw (sized, failed) h
        | inr (c, made) ↦
            rw (sized, made)
              (λ key text held. absurd (law.new-empty cfg.cache_size c key text made held))
      ]
      | inr unsized ↦ rw unsized h
    ]

-- Something of one of the events.
abbrev pub IsAnswered : (Event → Event → Type 0) → List Event → Event → Type 0
IsAnswered P events out = Any (λ event. P event out) events

module _ (is_print : ℕ → Bool) (stamp : Stamp) (lib : TranslateLib) (cfg : Config)
    (law : IsTranslator lib) where
  -- Handling a list with a sound cache, where each event is answered so.
  pub range_events-Answered :
      (again : List Event → World lib → Run (Handled lib)) (P : Event → Event → Type 0)
      (events : List Event) (w : World lib)
      → All
          (λ event.
            (w : World lib)
            → IsSound lib law w.cache
            → Ensures (Answered law (P event)) (handle_event is_print stamp lib cfg again event w))
          events
      → IsSound lib law w.cache
      → Ensures
          (Answered law (IsAnswered P events))
          (range_events is_print stamp lib cfg again events w)
  unfolding range_events
  range_events-Answered again P [] w each h = (tt, h)
  range_events-Answered again P (event ∷ events) w each h =
      Ensures-bind (Answered law (P event))
        (Answered law (λ out. Any (λ e. P e out) (event ∷ events)))
        (handle_event is_print stamp lib cfg again event w) _ (each.0 w h)
        (next (λ w' sound. range_events-Answered again P events w' each.1 sound))
    where
      next :
          ((w' : World lib)
            → IsSound lib law w'.cache
            → Ensures
                (Answered law (λ out. Any (λ e. P e out) events))
                (range_events is_print stamp lib cfg again events w'))
          → (r : Handled lib) → Answered law (P event) r
          → Ensures (Answered law (λ out. Any (λ e. P e out) (event ∷ events))) (elim r.0.1 [
            | false ↦ returns ((r.0.0, false), r.1)
            | true ↦ do
              ((rest, ok'), w'') ← range_events is_print stamp lib cfg again events r.1
              returns ((r.0.0 ++ rest, ok'), w'')
          ])
      next more ((out, false), w') answered = (
        All-imp (P event) (λ o. Any (λ e. P e o) (event ∷ events)) (λ o p. inl p) out answered.0,
        answered.1,
      )
      next more ((out, true), w') answered =
          Ensures-bind (Answered law (λ o. Any (λ e. P e o) events))
            (Answered law (λ o. Any (λ e. P e o) (event ∷ events)))
            (range_events is_print stamp lib cfg again events w') _ (more w' answered.1)
            λ ((rest, ok'), w'') others. (
              All-append (λ o. Any (λ e. P e o) (event ∷ events)) out rest
                  (All-imp (P event) (λ o. Any (λ e. P e o) (event ∷ events)) (λ o p. inl p) out
                    answered.0)
                  (All-imp (λ o. Any (λ e. P e o) events) (λ o. Any (λ e. P e o) (event ∷ events))
                    (λ o p. inr p) rest others.0),
              others.1,
            )
