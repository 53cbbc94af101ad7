-- ===== src/Translate/Handled.antt =====
-- What HandleEvents of the translation plugin returns, the help and its translations included
-- (plugins/lightspeed-chat-google-translate-plugin/main.go).
use lightspeed_chat.Base.{
  ℕ, inl, inr, ℕ, suc, Text, codes, Bool, true, ◌≡◌, refl, ap, ◌∙◌, ◌⊎◌, inl, inr, Option, none,
  some, List, [], ◌∷◌, text_eq, if◌then◌else◌, All, All-imp, Run, returns, ◌>>=◌, Ensures,
  Ensures-bind, Ensures-if, Ensures-imp, text_eq_iff,
}
use lightspeed_chat.Types.{User, Source, Event, Stamp, new_event}
use lightspeed_chat.Types.EventType
use lightspeed_chat.Delivery.{deref}
use lightspeed_chat.BaseCommands.{tag}
use lightspeed_chat.Translate.{Config, TranslateLib, World}
use lightspeed_chat.Translate.Law.{IsTranslator}
use lightspeed_chat.Translate.Sound.{IsSound}
use lightspeed_chat.Translate.Handler.{
  Handled, nothing, help_command, handle_chat, help_event, handle_command, handle_event,
  handle_events,
}
use lightspeed_chat.Translate.Answers.{
  Any, Answered, IsTranslation, deref-eq, chat-IsTranslation, chat-Answered,
}
use lightspeed_chat.Translate.Ranges.{IsAnswered, range_events-Answered}

only : {A : Type 0} (P : A → Type 0) (x : A) → Any P (x ∷ []) → P x
only P x (inl p) = p
only P x (inr p) = absurd p

all : {A : Type 0} {P : A → Type 0} → ((x : A) → P x) → (xs : List A) → All P xs
all f [] = tt
all f (x ∷ xs) = (f x, all f xs)

module _ (is_print : ℕ → Bool) (stamp : Stamp) (lib : TranslateLib) (cfg : Config)
    (law : IsTranslator lib) where
  -- The help, or a translation of it, for a command of that name.
  abbrev pub IsHelp : Event → Event → Type 0
  IsHelp event out =
      (source : Source) × (user : User) × (event.source ≡ some source)
      × (source.user ≡ some user)
      × (event.name ≡ EventType.command)
      × (tag (codes "command") event ≡ some help_command)
      × ((out ≡ help_event is_print stamp event user)
          ⊎ IsTranslation is_print stamp lib cfg law (help_event is_print stamp event user) out)

  -- An answer to one of the events.
  abbrev pub IsAnswer : List Event → Event → Type 0
  IsAnswer events out =
      Any (λ event. IsTranslation is_print stamp lib cfg law event out ⊎ IsHelp event out) events

  -- The help that is handled again has chat messages only.
  again-Answered :
      (depth : ℕ) (event : Event) (user : User) (w : World lib)
      → IsSound lib law w.cache
      → Ensures
          (Answered law (
            IsAnswered
              (IsTranslation is_print stamp lib cfg law)
              (help_event is_print stamp event user ∷ [])))
          (handle_events is_print stamp lib cfg
            (suc depth)
            (help_event is_print stamp event user ∷ [])
            w)
  unfolding handle_events new_event
  again-Answered depth event user w h =
      range_events-Answered is_print stamp lib cfg law (handle_events is_print stamp lib cfg depth)
        (IsTranslation is_print stamp lib cfg law) (help_event is_print stamp event user ∷ []) w
        (
          (λ w' sound.
              chat-Answered is_print stamp lib cfg law (handle_events is_print stamp lib cfg depth)
                (help_event is_print stamp event user) w' refl sound),
          tt,
        )
        h

  handle_command-Answered :
      (depth : ℕ) (event : Event) (source : Source) (w : World lib)
      → event.source ≡ some source
      → event.name ≡ EventType.command
      → IsSound lib law w.cache
      → Ensures (Answered law (IsHelp event)) (
          handle_command is_print stamp lib cfg
            (handle_events is_print stamp lib cfg (suc depth))
            event
            source.user
            w)
  unfolding handle_command
  handle_command-Answered depth event source w from command h =
      go (tag (codes "command") event) refl
    where
      again : List Event → World lib → Run (Handled lib)
      again = handle_events is_print stamp lib cfg (suc depth)

      with_help :
          (user : User)
          → source.user ≡ some user
          → tag (codes "command") event ≡ some help_command
          → Ensures (Answered law (IsHelp event)) (do
            ((translated, ok), w') ← again (help_event is_print stamp event user ∷ []) w
            returns ((help_event is_print stamp event user ∷ translated, true), w'))
      with_help user by asked =
          Ensures-bind
            (Answered law (
              IsAnswered (IsTranslation is_print stamp lib cfg law)
                (help_event is_print stamp event user ∷ [])))
            (Answered law (IsHelp event)) (again (help_event is_print stamp event user ∷ []) w) _
            (again-Answered depth event user w h)
            λ ((translated, ok), w') answered. (
              (
                (source, user, from, by, command, asked, inl refl),
                All-imp
                    (IsAnswered (IsTranslation is_print stamp lib cfg law)
                      (help_event is_print stamp event user ∷ []))
                    (IsHelp event)
                    (λ o t. (
                      source,
                      user,
                      from,
                      by,
                      command,
                      asked,
                      inr (
                          only (λ e. IsTranslation is_print stamp lib cfg law e o)
                            (help_event is_print stamp event user) t),
                    ))
                    translated answered.0,
              ),
              answered.1,
            )

      go :
          (o : Option Text)
          → tag (codes "command") event ≡ o
          → Ensures (Answered law (IsHelp event)) (elim o [
            | none ↦ nothing w
            | some name ↦
                if text_eq name help_command
                then (do
                  sender ← deref source.user
                  ((translated, ok), w') ← again (help_event is_print stamp event sender ∷ []) w
                  returns ((help_event is_print stamp event sender ∷ translated, true), w'))
                else nothing w
          ])
      go none silent = (tt, h)
      go (some name) said =
          Ensures-if (Answered law (IsHelp event)) (text_eq name help_command) _ _
            (λ same.
              Ensures-bind (λ u. source.user ≡ some u) (Answered law (IsHelp event))
                (deref source.user) _ (deref-eq source.user)
                λ user by.
                  with_help user by (said ∙ ap some ((text_eq_iff name help_command).0 same)))
            (λ _. (tt, h))

  event-Answered :
      (depth : ℕ) (event : Event) (w : World lib)
      → IsSound lib law w.cache
      → Ensures
          (Answered law
            (λ out. IsTranslation is_print stamp lib cfg law event out ⊎ IsHelp event out))
          (handle_event is_print stamp lib cfg
            (handle_events is_print stamp lib cfg (suc depth))
            event
            w)
  unfolding handle_event
  event-Answered depth event w h =
      Ensures-bind (λ s. event.source ≡ some s) (Answered law Q) (deref event.source) _
        (deref-eq event.source)
        λ source from.
          Ensures-if (Answered law Q) (text_eq event.name EventType.chat) _ _
            (λ chat.
              Ensures-imp (Answered law (IsTranslation is_print stamp lib cfg law event))
                (Answered law Q) (handle_chat is_print stamp lib cfg event source.user w)
                (chat-IsTranslation is_print stamp lib cfg law event source w from
                  ((text_eq_iff event.name EventType.chat).0 chat) h)
                (λ ((out, ok), w') answered. (
                  All-imp (IsTranslation is_print stamp lib cfg law event) Q (λ o. inl) out
                      answered.0,
                  answered.1,
                )))
            (λ _.
              Ensures-if (Answered law Q) (text_eq event.name EventType.command) _ _
                (λ command.
                  Ensures-imp (Answered law (IsHelp event)) (Answered law Q)
                    (handle_command is_print stamp lib cfg
                      (handle_events is_print stamp lib cfg (suc depth)) event source.user w)
                    (handle_command-Answered depth event source w from
                      ((text_eq_iff event.name EventType.command).0 command) h)
                    (λ ((out, ok), w') answered.
                      (All-imp (IsHelp event) Q (λ o. inr) out answered.0, answered.1)))
                (λ _. (tt, h)))
    where
      Q : Event → Type 0
      Q out = IsTranslation is_print stamp lib cfg law event out ⊎ IsHelp event out

  -- Where the cache holds translations only, HandleEvents does not run on, and what it returns, with or without an error, answers one of the events: a translation of a chat event, for the clients of a configured language, or the help, translated or not; and the cache holds translations only, for a service that translates.
  pub handle_events-IsAnswer :
      (depth : ℕ) (events : List Event) (w : World lib)
      → IsSound lib law w.cache
      → Ensures
          (Answered law (IsAnswer events))
          (handle_events is_print stamp lib cfg (suc (suc depth)) events w)
  unfolding handle_events
  handle_events-IsAnswer depth events w h =
      range_events-Answered is_print stamp lib cfg law
        (handle_events is_print stamp lib cfg (suc depth)) _ events w
        (all (λ event w' sound. event-Answered depth event w' sound) events) h
