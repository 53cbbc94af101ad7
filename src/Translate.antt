-- ===== src/Translate.antt =====
-- The translation of texts in plugins/lightspeed-chat-google-translate-plugin/main.go: the cache and
-- the translation service behind it. The cache (golang-lru), the client of the service and the
-- unescaping of HTML are parameters; the texts that are logged are left out.
pub mod Handler
pub mod Law
pub mod Sound
pub mod Answers
pub mod Ranges
pub mod Handled
pub mod Halting
pub mod Uncached
use lightspeed_chat.Base.{
  ℕ, suc, ℤ, Text, Bool, true, false, Option, none, some, List, [], ◌∷◌, get_elem?, set, take, drop,
  length, ltb, if◌then◌else◌, text_eq, Run, returns, panics, ◌>>=◌,
}
use lightspeed_chat.Delivery.{deref}
use lightspeed_chat.Strings.{first_two}

pub record Config : Type 0 where
  pub cron_spec : Text
  pub project_id : Text
  pub languages : List Text
  pub cache_size : ℤ

pub record CacheKey : Type 0 where
  pub target_language : Text
  pub text : Text

-- `translatepb.TranslateTextRequest`, and one entry of its answer.
pub record Request : Type 0 where
  pub contents : List Text
  pub target_language_code : Text
  pub project_id : Text

pub record Translation : Type 0 where
  pub translated_text : Text
  pub detected_language_code : Text

-- `connect` is NewTranslationClient, whether it succeeds; an error of the service is none.
pub record TranslateLib : Type 1 where
  pub Cache : Type 0
  pub Service : Type 0
  pub new_cache : ℤ → Option Cache
  pub get : CacheKey → Cache → Option Text × Cache
  pub add : CacheKey → Text → Cache → Cache
  pub connect : Service → Bool × Service
  pub translate_text : Request → Service → Option (List Translation) × Service
  pub unescape : Text → Text

-- `xs[i] = x`
abbrev pub set_at : {A : Type 0} → List A → ℕ → A → Run (List A)
set_at xs i x = if ltb i (length xs) then returns (set xs i x) else panics

-- `src[idx]` for each of the indices.
unfoldable pub chosen : List Text → List ℕ → Run (List Text)
chosen src [] = returns []
chosen src (i ∷ idx) = do
  text ← deref (get_elem? src i)
  texts ← chosen src idx
  returns (text ∷ texts)

module _ (lib : TranslateLib) where
  open lib use {Cache, Service}

  -- The global cache, nil until Configure makes one, and the service.
  pub record World : Type 0 where
    pub cache : Option Cache
    pub service : Service

  -- The methods of a nil cache panic.
  abbrev pub cache_get : CacheKey → Option Cache → Run (Option Text × Option Cache)
  cache_get key none = panics
  cache_get key (some c) = returns ((lib.get key c).0, some (lib.get key c).1)

  abbrev pub cache_add : CacheKey → Text → Option Cache → Run (Option Cache)
  cache_add key text none = panics
  cache_add key text (some c) = returns (some (lib.add key text c))

  -- What the cache adds to the translations and the indices to translate.
  abbrev pub hit_or_miss :
      ℕ → Option Text → List Text × List ℕ × Option Cache → List Text × List ℕ × Option Cache
  hit_or_miss i none (translations, idx, c) = ([] ∷ translations, i ∷ idx, c)
  hit_or_miss i (some text) (translations, idx, c) = (text ∷ translations, idx, c)

  -- The first loop of `translation`, from the index `i` on.
  unfoldable pub look_up :
      Text → List Text → ℕ → Option Cache → Run (List Text × List ℕ × Option Cache)
  look_up language [] i c = returns ([], [], c)
  look_up language (text ∷ src) i c = do
    (found, c') ← cache_get (record { target_language = language; text = text }) c
    rest ← look_up language src (suc i) c'
    returns (hit_or_miss i found rest)

  -- A translation from another language is written at its index and kept in the cache.
  unfoldable pub keep :
      Text → List Text → List ℕ → Text → List Text → Option Cache → Run (List Text × Option Cache)
  keep language src idx text translations c = do
    i ← deref (get_elem? idx 0)
    translations' ← set_at translations i text
    source ← deref (get_elem? src i)
    c' ← cache_add (record { target_language = language; text = source }) text c
    returns (translations', c')

  -- The last loop of `translation`, with the indices from that of its round on.
  unfoldable pub fill :
      Text
      → List Text
      → List ℕ
      → List Translation
      → List Text
      → Option Cache
      → Run (List Text × Option Cache)
  unfolding keep
  fill language src idx [] translations c = returns (translations, c)
  fill language src idx (t ∷ answer) translations c = do
    detected ← first_two t.detected_language_code
    wanted ← first_two language
    (translations', c') ←
        (if text_eq detected wanted
          then returns (translations, c)
          else keep language src idx (lib.unescape t.translated_text) translations c)
    fill language src (drop 1 idx) answer translations' c'

  -- What follows TranslateText.
  abbrev pub answered :
      Text
      → List Text
      → List ℕ
      → List Text
      → Option Cache
      → Option (List Translation) × Service
      → Run (Option (List Text) × World)
  answered language src idx translations c (none, s) =
      returns (none, record { cache = c; service = s })
  answered language src idx translations c (some answer, s) = do
    (translations', c') ← fill language src idx answer translations c
    returns (some translations', record { cache = c'; service = s })

  -- What follows NewTranslationClient.
  abbrev pub connected :
      Config
      → Text
      → List Text
      → List ℕ
      → List Text
      → List Text
      → Option Cache
      → Bool × Service
      → Run (Option (List Text) × World)
  connected cfg language src idx texts translations c (false, s) =
      returns (none, record { cache = c; service = s })
  connected cfg language src idx texts translations c (true, s) =
      answered language src idx translations c (
        lib.translate_text
          (record {
            contents = texts;
            target_language_code = language;
            project_id = cfg.project_id;
          })
          s)

  -- What follows the first loop.
  abbrev pub ask :
      Config
      → Text
      → List Text
      → Service
      → List Text × List ℕ × Option Cache
      → Run (Option (List Text) × World)
  ask cfg language src s (translations, [], c) =
      returns (some translations, record { cache = c; service = s })
  ask cfg language src s (translations, i ∷ idx, c) = do
    texts ← chosen src (i ∷ idx)
    connected cfg language src (i ∷ idx) texts translations c (lib.connect s)

  -- none for an error; the world it leaves has what was found and asked until then.
  unfoldable pub translation : Config → List Text → Text → World → Run (Option (List Text) × World)
  unfolding look_up fill chosen
  translation cfg [] language w = returns (some [], w)
  translation cfg (text ∷ src) language w = do
    looked ← look_up language (text ∷ src) 0 w.cache
    ask cfg language (text ∷ src) w.service looked
