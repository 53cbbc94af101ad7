-- ===== src/Translate/Answers.antt =====
-- What the translation plugin answers to a chat event
-- (plugins/lightspeed-chat-google-translate-plugin/main.go).
use lightspeed_chat.Base.{
  ℕ, Text, codes, Bool, false, ◌≡◌, refl, ◌⊎◌, inl, inr, Option, none, some, List, [], ◌∷◌, ◌++◌,
  take, length, ltb, text_eq, has_prefix, if◌then◌else◌, All, All-append, All-imp, Run, returns,
  ◌>>=◌, Ensures, Ensures-bind, Ensures-if, Ensures-imp, arith, text_eq_iff,
}
use lightspeed_chat.Strings.{is_empty}
use lightspeed_chat.Types.{User, Source, Event, Stamp, new_event}
use lightspeed_chat.Types.EventType
use lightspeed_chat.Delivery.{deref}
use lightspeed_chat.BaseCommands.{tag}
use lightspeed_chat.Translate.{Config, TranslateLib, World, first_two, translation}
use lightspeed_chat.Translate.Law.{IsTranslator, AreTranslated}
use lightspeed_chat.Translate.Sound.{IsSound, Translated, translation-Translated}
use lightspeed_chat.Translate.Handler.{
  Handled, nothing, own_source, language_filter, announce, each_language, handle_chat, handle_event,
}

-- One of the list.
abbrev pub Any : {A : Type 0} → (A → Type 0) → List A → Type 0
Any P [] = ⊥
Any P (x ∷ xs) = P x ⊎ Any P xs

Any-self :
    {A : Type 0} (P : A → Type 0) (xs : List A) → ((x : A) → Any (λ y. y ≡ x) xs → P x) → All P xs
Any-self P [] f = tt
Any-self P (x ∷ xs) f = (f x (inl refl), Any-self P xs (λ y h. f y (inr h)))

pub deref-eq : {A : Type 0} (o : Option A) → Ensures (λ a. o ≡ some a) (deref o)
deref-eq none = tt
deref-eq (some a) = refl

-- What is handled with a sound cache: such events, and a sound cache.
abbrev pub Answered :
    {lib : TranslateLib} (law : IsTranslator lib) → (Event → Type 0) → Handled lib → Type 0
Answered {lib} law P ((out, ok), w) = All P out × IsSound lib law w.cache

module _ (is_print : ℕ → Bool) (stamp : Stamp) (lib : TranslateLib) (cfg : Config)
    (law : IsTranslator lib) where
  open law use {translates}

  -- A translation of the message of the event into the language, for the clients with the language
  -- that the event's own filter admits.
  pub record IsTranslationOf (event : Event) (user : Option User) (language : Text) (out : Event)
      : Type 0 where
    pub message : Text
    pub text : Text
    pub said : tag (codes "message") event ≡ some message
    pub means : translates language message text
    pub nonempty : is_empty text ≡ false
    pub made :
        out
        ≡ new_event stamp event.room
            (some (own_source user))
            (language_filter is_print event.target_filter (take 2 language))
            (take 2 language)
            EventType.translation
            (some ((codes "message", text) ∷ (codes "source_id", event.id) ∷ []))

  -- A translation of a chat event into a configured language.
  abbrev pub IsTranslation : Event → Event → Type 0
  IsTranslation event out =
      (source : Source) × (language : Text) × (event.source ≡ some source)
      × (event.name ≡ EventType.chat)
      × Any (λ l. l ≡ language) cfg.languages
      × IsTranslationOf event source.user language out

  first_two-eq : (t : Text) → Ensures (λ r. r ≡ take 2 t) (first_two t)
  first_two-eq t = Ensures-if (λ r. r ≡ take 2 t) (ltb (length t) 2) _ _ (λ _. tt) (λ _. refl)

  announce-IsTranslation :
      (event : Event) (user : Option User) (message language iso : Text) (texts : List Text)
      → tag (codes "message") event ≡ some message
      → iso ≡ take 2 language
      → AreTranslated (translates language) (message ∷ []) texts
      → All
          (IsTranslationOf event user language)
          (announce is_print stamp lib cfg event user iso texts)
  unfolding announce
  announce-IsTranslation event user message language iso [] said two h = absurd h
  announce-IsTranslation event user message language iso ([] ∷ texts) said two h = tt
  announce-IsTranslation event user message language iso ((c ∷ text) ∷ texts) said two
        (inl empty, h) =
      cc empty
  announce-IsTranslation event user message language iso ((c ∷ text) ∷ texts) said two
        (inr means, h) =
      (
        record {
          message = message;
          text = c ∷ text;
          said = said;
          means = means;
          nonempty = refl;
          made = rw two refl;
        },
        tt,
      )

  -- A translation of the event into a configured language.
  abbrev Configured : Event → Option User → Event → Type 0
  Configured event user out =
      (language : Text) × Any (λ l. l ≡ language) cfg.languages
      × IsTranslationOf event user language out

  each_language-Answered :
      (event : Event) (user : Option User) (message : Text) (languages : List Text) (w : World lib)
      → tag (codes "message") event ≡ some message
      → IsSound lib law w.cache
      → All (λ l. Any (λ x. x ≡ l) cfg.languages) languages
      → Ensures
          (Answered law (Configured event user))
          (each_language is_print stamp lib cfg event user message languages w)
  unfolding each_language
  each_language-Answered event user message [] w said h known = (tt, h)
  each_language-Answered event user message (language ∷ languages) w said h known =
      Ensures-bind (λ iso. iso ≡ take 2 language) (Answered law (Configured event user))
        (first_two language) _ (first_two-eq language)
        λ iso two.
          Ensures-bind (Translated lib law language (message ∷ []))
            (Answered law (Configured event user)) (translation lib cfg (message ∷ []) language w) _
            (translation-Translated lib law cfg (message ∷ []) language w h)
            (next iso two (λ w' sound.
              each_language-Answered event user message languages w' said sound known.1))
    where
      next :
          (iso : Text)
          → iso ≡ take 2 language
          → ((w' : World lib)
              → IsSound lib law w'.cache
              → Ensures
                  (Answered law (Configured event user))
                  (each_language is_print stamp lib cfg event user message languages w'))
          → (r : Option (List Text) × World lib) → Translated lib law language (message ∷ []) r
          → Ensures (Answered law (Configured event user)) (elim r.0 [
            | none ↦ returns (([], false), r.1)
            | some texts ↦ do
              ((out, ok), w'') ←
                  each_language is_print stamp lib cfg event user message languages r.1
              returns ((announce is_print stamp lib cfg event user iso texts ++ out, ok), w'')
          ])
      next iso two more (none, w') sound = (tt, sound)
      next iso two more (some texts, w') (means, sound) =
          Ensures-bind (Answered law (Configured event user)) (Answered law (Configured event user))
            (each_language is_print stamp lib cfg event user message languages w') _ (more w' sound)
            λ ((out, ok), w'') rest. (
              All-append (Configured event user)
                  (announce is_print stamp lib cfg event user iso texts) out
                  (All-imp (IsTranslationOf event user language) (Configured event user)
                    (λ o made. (language, known.0, made))
                    (announce is_print stamp lib cfg event user iso texts)
                    (announce-IsTranslation event user message language iso texts said two means))
                  rest.0,
              rest.1,
            )

  handle_chat-Answered :
      (event : Event) (user : Option User) (w : World lib)
      → IsSound lib law w.cache
      → Ensures
          (Answered law (Configured event user))
          (handle_chat is_print stamp lib cfg event user w)
  unfolding handle_chat
  handle_chat-Answered event user w h = go (tag (codes "message") event) refl
    where
      go :
          (o : Option Text)
          → tag (codes "message") event ≡ o
          → Ensures (Answered law (Configured event user)) (elim o [
            | none ↦ nothing w
            | some message ↦
                if has_prefix message (codes "/")
                then nothing w
                else each_language is_print stamp lib cfg event user message cfg.languages w
          ])
      go none silent = (tt, h)
      go (some message) said =
          Ensures-if (Answered law (Configured event user)) (has_prefix message (codes "/")) _ _
            (λ _. (tt, h))
            (λ _.
              each_language-Answered event user message cfg.languages w said h
                (Any-self (λ l. Any (λ x. x ≡ l) cfg.languages) cfg.languages (λ l known. known)))

  pub chat-IsTranslation :
      (event : Event) (source : Source) (w : World lib)
      → event.source ≡ some source
      → event.name ≡ EventType.chat
      → IsSound lib law w.cache
      → Ensures
          (Answered law (IsTranslation event))
          (handle_chat is_print stamp lib cfg event source.user w)
  chat-IsTranslation event source w from chat h =
      Ensures-imp (Answered law (Configured event source.user)) (Answered law (IsTranslation event))
        (handle_chat is_print stamp lib cfg event source.user w)
        (handle_chat-Answered event source.user w h)
        (λ ((out, ok), w') answered. (
          All-imp (Configured event source.user) (IsTranslation event)
              (λ o (language, known, made). (source, language, from, chat, known, made)) out
              answered.0,
          answered.1,
        ))

  -- A chat event is handled alike at every depth.
  pub chat-Answered :
      (again : List Event → World lib → Run (Handled lib)) (event : Event) (w : World lib)
      → event.name ≡ EventType.chat
      → IsSound lib law w.cache
      → Ensures
          (Answered law (IsTranslation event))
          (handle_event is_print stamp lib cfg again event w)
  unfolding handle_event
  chat-Answered again event w chat h =
      Ensures-bind (λ s. event.source ≡ some s) (Answered law (IsTranslation event))
        (deref event.source) _ (deref-eq event.source)
        λ source from.
          Ensures-if (Answered law (IsTranslation event)) (text_eq event.name EventType.chat) _ _
            (λ _. chat-IsTranslation event source w from chat h)
            (λ other. absurd (ground (arith, other, text_eq_iff event.name EventType.chat, chat)))
