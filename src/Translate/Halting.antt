-- ===== src/Translate/Halting.antt =====
-- Without a cache, each event makes HandleEvents panic or is passed over
-- (plugins/lightspeed-chat-google-translate-plugin/main.go).
use lightspeed_chat.Base.{
  ℕ, suc, Text, codes, Bool, false, ◌≡◌, refl, ap, ◌∙◌, Option, none, some, List, [], ◌∷◌,
  has_prefix, if◌then◌else◌, Run, returns, panics, ◌>>=◌, Ensures, Ensures-if, text_eq,
  text_eq_refl, runs_on, true, sym, subst, inl, inr, Bool-cases, lookup,
}
use lightspeed_chat.Types.{User, Source, Event, Stamp, new_event}
use lightspeed_chat.Types.EventType
use lightspeed_chat.BaseCommands.{tag}
use lightspeed_chat.Strings.{first_two}
use lightspeed_chat.Delivery.{deref}
use lightspeed_chat.Translate.{Config, TranslateLib, World, translation, look_up}
use lightspeed_chat.Translate.Sound.{first_two-Ends}
use lightspeed_chat.Translate.Handler.{
  Handled, nothing, each_language, handle_chat, handle_command, help_event, help_text, help_command,
  handle_event, range_events, handle_events,
}

>>=-panics :
    {A B : Type 0} (m : Run A) (f : A → Run B)
    → Ensures (λ _. Unit {0}) m
    → ((a : A) → f a ≡ panics)
    → (m >>= f) ≡ panics
>>=-panics (returns a) f ends h = h a
>>=-panics panics f ends h = refl
>>=-panics runs_on f ends h = absurd ends

pub panics-bind : {A B : Type 0} (m : Run A) (f : A → Run B) → m ≡ panics → (m >>= f) ≡ panics
panics-bind m f e = ap (λ n. n >>= f) e

translation-uncached :
    (lib : TranslateLib) (cfg : Config) (message language : Text) (w : World lib)
    → w.cache ≡ none
    → translation lib cfg (message ∷ []) language w ≡ panics
unfolding translation look_up
translation-uncached lib cfg message language w cold = rw cold refl

module _ (is_print : ℕ → Bool) (stamp : Stamp) (lib : TranslateLib) (cfg : Config) where
  handle_chat-uncached :
      (event : Event) (user : Option User) (message language : Text) (languages : List Text)
      (w : World lib)
      → w.cache ≡ none
      → cfg.languages ≡ language ∷ languages
      → tag (codes "message") event ≡ some message
      → has_prefix message (codes "/") ≡ false
      → handle_chat is_print stamp lib cfg event user w ≡ panics
  unfolding handle_chat each_language
  handle_chat-uncached event user message language languages w cold several said plain =
      ap
        (λ (o : Option Text). elim o as (λ _. Run (Handled lib)) [
          | none ↦ nothing w
          | some m ↦
              if has_prefix m (codes "/")
              then nothing w
              else each_language is_print stamp lib cfg event user m cfg.languages w
        ])
        said
      ∙ rw (plain, several)
          (>>=-panics (first_two language) _ (first_two-Ends language)
            (λ iso. rw (translation-uncached lib cfg message language w cold) refl))

  pub uncached_chat :
      (again : List Event → World lib → Run (Handled lib)) (event : Event) (source : Source)
      (message language : Text) (languages : List Text) (w : World lib)
      → w.cache ≡ none
      → cfg.languages ≡ language ∷ languages
      → event.source ≡ some source
      → event.name ≡ EventType.chat
      → tag (codes "message") event ≡ some message
      → has_prefix message (codes "/") ≡ false
      → handle_event is_print stamp lib cfg again event w ≡ panics
  unfolding handle_event
  uncached_chat again event source message language languages w cold several from chat said plain =
      simp
        (
          from,
          chat,
          text_eq_refl EventType.chat,
          handle_chat-uncached event source.user message language languages w cold several said
              plain,
        )
        refl

  -- The code panics, or leaves the world as it is and goes on.
  abbrev pub Halts : World lib → Run (Handled lib) → Type 0
  Halts w = Ensures (λ handled. (handled.0.1 ≡ true) × (handled.1 ≡ w))

  module _ (language : Text) (languages : List Text)
      (several : cfg.languages ≡ language ∷ languages) where
    handle_chat-Halts :
        (event : Event) (user : Option User) (w : World lib)
        → w.cache ≡ none
        → Halts w (handle_chat is_print stamp lib cfg event user w)
    unfolding handle_chat
    handle_chat-Halts event user w cold = by_message (tag (codes "message") event) refl
      where
        by_message :
            (o : Option Text)
            → tag (codes "message") event ≡ o
            → Halts w (handle_chat is_print stamp lib cfg event user w)
        by_message none e = rw (e, handle_chat) (refl, refl)
        by_message (some message) e = elim (Bool-cases (has_prefix message (codes "/"))) [
          | inl slash ↦ rw (e, slash, handle_chat) (refl, refl)
          | inr plain ↦
              subst (Halts w)
                (sym (
                  handle_chat-uncached event user message language languages w cold several e
                    plain))
                tt
        ]

    help-panics :
        (depth : ℕ) (event : Event) (user : User) (w : World lib)
        → w.cache ≡ none
        → handle_events is_print stamp lib cfg
            (suc depth)
            (help_event is_print stamp event user ∷ [])
            w
          ≡ panics
    unfolding handle_events range_events new_event lookup text_eq has_prefix
    help-panics depth event user w cold =
        panics-bind
          (handle_event is_print stamp lib cfg (handle_events is_print stamp lib cfg depth)
            (help_event is_print stamp event user) w)
          _
          (uncached_chat (handle_events is_print stamp lib cfg depth)
            (help_event is_print stamp event user) _ help_text language languages w cold several
            refl refl refl refl)

    handle_command-Halts :
        (depth : ℕ) (event : Event) (user : Option User) (w : World lib)
        → w.cache ≡ none
        → Halts w (
            handle_command is_print stamp lib cfg
              (handle_events is_print stamp lib cfg (suc depth))
              event
              user
              w)
    unfolding handle_command
    handle_command-Halts depth event user w cold = by_command (tag (codes "command") event) refl
      where
        answers :
            (o : Option User)
            → Halts w (do
              sender ← deref o
              ((translated, ok), w') ←
                  handle_events is_print stamp lib cfg
                    (suc depth)
                    (help_event is_print stamp event sender ∷ [])
                    w
              returns ((help_event is_print stamp event sender ∷ translated, true), w'))
        answers none = tt
        answers (some sender) = rw (help-panics depth event sender w cold) tt

        by_command :
            (o : Option Text)
            → tag (codes "command") event ≡ o
            → Halts w (
                handle_command is_print stamp lib cfg
                  (handle_events is_print stamp lib cfg (suc depth))
                  event
                  user
                  w)
        by_command none e = rw (e, handle_command) (refl, refl)
        by_command (some command) e =
            rw (e, handle_command)
              (Ensures-if (λ handled. (handled.0.1 ≡ true) × (handled.1 ≡ w))
                (text_eq command help_command) _ _ (λ _. answers user) (λ _. (refl, refl)))

    pub handle_event-Halts :
        (depth : ℕ) (event : Event) (w : World lib)
        → w.cache ≡ none
        → Halts w (
            handle_event is_print stamp lib cfg
              (handle_events is_print stamp lib cfg (suc depth))
              event
              w)
    unfolding handle_event
    handle_event-Halts depth event w cold = by_source event.source
      where
        P : Handled lib → Type 0
        P handled = (handled.0.1 ≡ true) × (handled.1 ≡ w)

        by_source :
            (o : Option Source)
            → Halts w (do
              source ← deref o
              (if text_eq event.name EventType.chat
                  then handle_chat is_print stamp lib cfg event source.user w
                  else if text_eq event.name EventType.command
                  then handle_command is_print stamp lib cfg
                      (handle_events is_print stamp lib cfg (suc depth))
                      event
                      source.user
                      w
                  else nothing w))
        by_source none = tt
        by_source (some source) =
            (Ensures-if P (text_eq event.name EventType.chat) _ _
              (λ _. handle_chat-Halts event source.user w cold)
              (λ _.
                Ensures-if P (text_eq event.name EventType.command) _ _
                  (λ _. handle_command-Halts depth event source.user w cold) (λ _. (refl, refl))))

    pub panics_behind :
        (w : World lib) (m : Run (Handled lib)) (f : Handled lib → Run (Handled lib))
        → Halts w m
        → ((out : List Event) → f ((out, true), w) ≡ panics)
        → (m >>= f) ≡ panics
    panics_behind w (returns ((out, ok), w')) f (fine, same) k = rw (fine, same) (k out)
    panics_behind w panics f h k = refl
    panics_behind w runs_on f h k = absurd h
