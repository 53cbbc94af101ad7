-- ===== src/Examples/Translations.antt =====
-- The theorems on the translation plugin, at a service that appends the language to a text
-- (plugins/lightspeed-chat-google-translate-plugin/main.go).
use lightspeed_chat.Base.{
  pos, Text, codes, Bool, true, ◌&&◌, ◌≡◌, refl, sym, subst, lookup, has_prefix, ap, ◌⊎◌, inl, inr,
  Option, none, some, List, [], ◌∷◌, ◌++◌, map, text_eq, text_eq_iff, if◌then◌else◌, Bool-cases,
  Ensures, panics, arith,
}
use mathlib.Core.Option.{some-injective}
use lightspeed_chat.Types.{new_event}
use lightspeed_chat.Translate.{Config, CacheKey, Translation, TranslateLib, World}
use lightspeed_chat.Translate.Law.{IsTranslator, AreTranslations}
use lightspeed_chat.Translate.Answers.{Answered}
use lightspeed_chat.Translate.Handler.{handle_events, configure}
use lightspeed_chat.Translate.Handled.{IsAnswer, handle_events-IsAnswer}
use lightspeed_chat.Translate.Uncached.{handle_events-uncached}
use lightspeed_chat.Examples.{chat_event, stamp, by_ann}

abbrev Kept : Type 0
Kept = List (CacheKey × Text)

abbrev is_key : CacheKey → CacheKey → Bool
is_key a b = text_eq a.target_language b.target_language && text_eq a.text b.text

abbrev find : CacheKey → Kept → Option Text
find key [] = none
find key ((k, text) ∷ kept) = if is_key key k then some text else find key kept

abbrev in_language : Text → Text → Translation
in_language language text = record {
  translated_text = text ++ language;
  detected_language_code = codes "xx";
}

abbrev listed_lib : TranslateLib
listed_lib = record {
  Cache = Kept;
  Service = Unit;
  new_cache = λ size. some [];
  get = λ key kept. (find key kept, kept);
  add = λ key text kept. (key, text) ∷ kept;
  connect = λ s. (true, s);
  translate_text =
      λ request s. (some (map (in_language request.target_language_code) request.contents), s);
  unescape = λ text. text;
}

abbrev Holds : Kept → CacheKey → Text → Type 0
Holds [] key text = ⊥
Holds ((k, t) ∷ kept) key text = ((key ≡ k) × (text ≡ t)) ⊎ Holds kept key text

is_key-eq : (a b : CacheKey) → is_key a b ≡ true → a ≡ b
is_key-eq a b h =
    ground (arith, h, text_eq_iff a.target_language b.target_language, text_eq_iff a.text b.text)

find-Holds :
    (key : CacheKey) (kept : Kept) (text : Text) → find key kept ≡ some text → Holds kept key text
find-Holds key [] text h = cc h
find-Holds key ((k, t) ∷ kept) text h = elim (Bool-cases (is_key key k)) [
  | inl same ↦ inl (is_key-eq key k same, sym (some-injective t text (rw same at h)))
  | inr other ↦ inr (find-Holds key kept text (rw other at h))
]

abbrev Means : Text → Text → Text → Type 0
Means language source text = text ≡ source ++ language

map-AreTranslations :
    (language : Text) (texts : List Text)
    → AreTranslations listed_lib (Means language) texts (map (in_language language) texts)
map-AreTranslations language [] = tt
map-AreTranslations language (text ∷ texts) = (refl, map-AreTranslations language texts)

listed_lib-IsTranslator : IsTranslator listed_lib
listed_lib-IsTranslator = record {
  translates = Means;
  holds = Holds;
  get-held = λ key c text h. find-Holds key c text h;
  get-keeps = λ key asked c text h. h;
  add-held = λ key added c text new h. h;
  new-empty =
      λ size c key text e h. subst (λ kept. Holds kept key text) (sym (some-injective [] c e)) h;
  translate_text-AreTranslations = λ request s s' answer e.
      subst (AreTranslations listed_lib (Means request.target_language_code) request.contents)
        (some-injective _ answer (ap (λ (r : Option (List Translation) × Unit {0}). r.0) e))
        (map-AreTranslations request.target_language_code request.contents);
}

abbrev german : Config
german = record { cron_spec = []; project_id = []; languages = codes "de" ∷ []; cache_size = pos 9 }

abbrev uncached : Config
uncached = record german { cache_size = pos 0 }

abbrev warm : World listed_lib
warm = record { cache = some []; service = tt }

handle_events-IsAnswer_example :
    Ensures
      (Answered listed_lib-IsTranslator
        (IsAnswer (λ c. true) stamp listed_lib german listed_lib-IsTranslator (chat_event ∷ [])))
      (handle_events (λ c. true) stamp listed_lib german 2 (chat_event ∷ []) warm)
unfolding listed_lib-IsTranslator
handle_events-IsAnswer_example =
    handle_events-IsAnswer (λ c. true) stamp listed_lib german listed_lib-IsTranslator 0
      (chat_event ∷ []) warm (λ key text h. absurd h)

handle_events-uncached_example :
    handle_events
      (λ c. true)
      stamp
      listed_lib
      uncached
      2
      (chat_event ∷ chat_event ∷ [])
      (configure (λ c. true) listed_lib (some uncached) (record warm { cache = none })).1
    ≡ panics
unfolding new_event lookup text_eq has_prefix
handle_events-uncached_example =
    handle_events-uncached (λ c. true) stamp listed_lib uncached 0 (chat_event ∷ []) [] chat_event
      by_ann (codes "hi") (codes "de") [] (record warm { cache = none }) refl refl refl refl refl
      refl refl
