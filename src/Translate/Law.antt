-- ===== src/Translate/Law.antt =====
-- What the translation plugin relies on of its cache and of the service
-- (plugins/lightspeed-chat-google-translate-plugin/main.go).
use lightspeed_chat.Base.{ℤ, Text, ◌≡◌, ◌⊎◌, some, List, [], ◌∷◌}
use lightspeed_chat.Translate.{CacheKey, Request, Translation, TranslateLib}

-- The answer to a request has at most one translation for each text, in the order of the texts.
abbrev pub AreTranslations :
    (lib : TranslateLib) → (Text → Text → Type 0) → List Text → List Translation → Type 0
AreTranslations lib means texts [] = Unit
AreTranslations lib means [] (t ∷ answer) = ⊥
AreTranslations lib means (text ∷ texts) (t ∷ answer) =
    means text (lib.unescape t.translated_text) × AreTranslations lib means texts answer

-- Of each source nothing, or a text that means the same.
abbrev pub AreTranslated : (Text → Text → Type 0) → List Text → List Text → Type 0
AreTranslated means [] [] = Unit
AreTranslated means (source ∷ sources) (text ∷ texts) =
    ((text ≡ []) ⊎ means source text) × AreTranslated means sources texts
AreTranslated means _ _ = ⊥

-- What is relied on of the libraries; `translates language source text` says that the text is a
-- translation of the source. The cache returns only what was added under a key.
pub record IsTranslator (lib : TranslateLib) : Type 1 where
  pub translates : Text → Text → Text → Type 0
  pub holds : lib.Cache → CacheKey → Text → Type 0
  pub get-held :
      (key : CacheKey) (c : lib.Cache) (text : Text)
      → (lib.get key c).0 ≡ some text
      → holds c key text
  pub get-keeps :
      (key asked : CacheKey) (c : lib.Cache) (text : Text)
      → holds (lib.get asked c).1 key text
      → holds c key text
  pub add-held :
      (key added : CacheKey) (c : lib.Cache) (text new : Text)
      → holds (lib.add added new c) key text
      → ((key ≡ added) × (text ≡ new)) ⊎ holds c key text
  pub new-empty :
      (size : ℤ) (c : lib.Cache) (key : CacheKey) (text : Text)
      → lib.new_cache size ≡ some c
      → holds c key text
      → ⊥
  pub translate_text-AreTranslations :
      (request : Request) (s s' : lib.Service) (answer : List Translation)
      → lib.translate_text request s ≡ (some answer, s')
      → AreTranslations lib (translates request.target_language_code) request.contents answer
