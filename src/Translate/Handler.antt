-- ===== src/Translate/Handler.antt =====
-- The handler of plugins/lightspeed-chat-google-translate-plugin/main.go: HandleEvents, Configure and
-- Cron. InitEmitEvents waits for ever and is left out.
use lightspeed_chat.Base.{
  ℕ, zero, suc, ℤ, pos, Text, codes, Bool, true, false, Option, none, some, List, [], ◌∷◌, ◌++◌,
  ltb_ℤ, if◌then◌else◌, text_eq, has_prefix, Run, returns, runs_on, ◌>>=◌,
}
use lightspeed_chat.Strings.{is_empty, first_two}
use lightspeed_chat.Strconv.Quote.{quote}
use lightspeed_chat.Types.{User, Room, Source, Event, Tags, Stamp, new_event, zero_user}
use lightspeed_chat.Types.EventType
use lightspeed_chat.Delivery.{deref}
use lightspeed_chat.BaseCommands.{tag}
use lightspeed_chat.Translate.{Config, TranslateLib, World, translation}

abbrev pub translator_nick : Text
translator_nick = codes "translatorBot"

abbrev pub translator_text : Text
translator_text = codes "translatorBot active"

abbrev pub help_text : Text
help_text =
    codes "### Translator plugin ###"
    ++ (10
        ∷ codes
            " -> all chat messages are automatically translated into all supported languages, no further commands are required")

abbrev pub help_command : Text
help_command = codes "/help"

abbrev pub text_language : Text
text_language = codes "en-US"

abbrev pub plugin_name : Text
plugin_name = codes "google-translate"

abbrev pub own_source : Option User → Source
own_source user = record { user_id = []; user = user; plugin_name = plugin_name }

-- What HandleEvents returns, and whether without error.
abbrev pub Handled : TranslateLib → Type 0
Handled lib = (List Event × Bool) × World lib

abbrev pub nothing : {lib : TranslateLib} → World lib → Run (Handled lib)
nothing w = returns (([], true), w)

-- The filter of a translation: what the event's own admits, of the clients with the language.
unfoldable pub language_filter : (ℕ → Bool) → Text → Text → Text
language_filter is_print filter iso =
    let target = codes "Target.Client.ClientLanguage startsWith " ++ quote is_print iso in
    if is_empty filter then target else codes "( " ++ filter ++ codes " ) && " ++ target

abbrev pub translation_tags : Event → Text → Tags
translation_tags event text = (codes "message", text) ∷ (codes "source_id", event.id) ∷ []

abbrev pub help_event : (ℕ → Bool) → Stamp → Event → User → Event
help_event is_print stamp event user =
    new_event stamp event.room (some (own_source (some user)))
      (codes "Target.User.Id == " ++ quote is_print user.id) text_language EventType.chat
      (some ((codes "message", help_text) ∷ []))

abbrev pub with_greeting : {lib : TranslateLib} → Event → Handled lib → Handled lib
with_greeting event ((out, true), w) = ((event ∷ out, true), w)
with_greeting event ((out, false), w) = ((event ∷ [], false), w)

module _ (is_print : ℕ → Bool) (stamp : Stamp) (lib : TranslateLib) (cfg : Config) where
  -- The event for a translation that is not empty.
  unfoldable pub announce : Event → Option User → Text → List Text → List Event
  unfolding language_filter
  announce event user iso [] = []
  announce event user iso (text ∷ texts) =
      if is_empty text
      then []
      else new_event stamp event.room (some (own_source user))
          (language_filter is_print event.target_filter iso) iso EventType.translation
          (some (translation_tags event text))
        ∷ []

  -- The loop over the languages.
  unfoldable pub each_language :
      Event → Option User → Text → List Text → World lib → Run (Handled lib)
  unfolding announce translation
  each_language event user message [] w = nothing w
  each_language event user message (language ∷ languages) w = do
    iso ← first_two language
    (res, w') ← translation lib cfg (message ∷ []) language w
    elim res [
      | none ↦ returns (([], false), w')
      | some texts ↦ do
        ((out, ok), w'') ← each_language event user message languages w'
        returns ((announce event user iso texts ++ out, ok), w'')
    ]

  unfoldable pub handle_chat : Event → Option User → World lib → Run (Handled lib)
  unfolding each_language
  handle_chat event user w = elim (tag (codes "message") event) [
    | none ↦ nothing w
    | some message ↦
        if has_prefix message (codes "/")
        then nothing w
        else each_language event user message cfg.languages w
  ]

  -- `again` is HandleEvents, whose error is ignored here.
  unfoldable pub handle_command :
      (List Event → World lib → Run (Handled lib))
      → Event
      → Option User
      → World lib
      → Run (Handled lib)
  handle_command again event user w = elim (tag (codes "command") event) [
    | none ↦ nothing w
    | some command ↦
        if text_eq command help_command
        then (do
          sender ← deref user
          ((translated, ok), w') ← again (help_event is_print stamp event sender ∷ []) w
          returns ((help_event is_print stamp event sender ∷ translated, true), w'))
        else nothing w
  ]

  unfoldable pub handle_event :
      (List Event → World lib → Run (Handled lib)) → Event → World lib → Run (Handled lib)
  unfolding handle_chat handle_command
  handle_event again event w = do
    source ← deref event.source
    (if text_eq event.name EventType.chat
        then handle_chat event source.user w
        else if text_eq event.name EventType.command
        then handle_command again event source.user w
        else nothing w)

  -- The loop over the events, which the first error ends.
  unfoldable pub range_events :
      (List Event → World lib → Run (Handled lib)) → List Event → World lib → Run (Handled lib)
  unfolding handle_event
  range_events again [] w = nothing w
  range_events again (event ∷ events) w = do
    ((out, ok), w') ← handle_event again event w
    elim ok [
      | false ↦ returns ((out, false), w')
      | true ↦ do
        ((rest, ok'), w'') ← range_events again events w'
        returns ((out ++ rest, ok'), w'')
    ]

  -- The fuel is the depth of the recursion.
  unfoldable pub handle_events : ℕ → List Event → World lib → Run (Handled lib)
  unfolding range_events
  handle_events zero events w = runs_on
  handle_events (suc depth) events w = range_events (handle_events depth) events w

  unfoldable pub cron : ℕ → Room → World lib → Run (Handled lib)
  unfolding handle_events
  cron depth room w =
      let event =
        new_event stamp (some room)
          (some (own_source (some (record zero_user { nick = translator_nick })))) [] text_language
          EventType.chat (some ((codes "message", translator_text) ∷ [])) in
      handle_events depth (event ∷ []) w >>= λ handled. returns (with_greeting event handled)

-- A cache is made where its size is positive; the old one stays if that fails.
abbrev pub configured_cache : (lib : TranslateLib) → ℤ → Option lib.Cache → Option lib.Cache
configured_cache lib size old =
    if ltb_ℤ (pos 0) size then elim (lib.new_cache size) [ none ↦ old | some c ↦ some c ] else old

-- The schedule and the event filter that Configure returns; `decoded` is what mapstructure makes of the
-- plugin's configuration, none for its error.
unfoldable pub configure :
    (ℕ → Bool) → (lib : TranslateLib) → Option Config → World lib → Option (Text × Text) × World lib
configure is_print lib none w = (none, w)
configure is_print lib (some cfg) w = (
  some (
    cfg.cron_spec,
    codes "(Name==\"command\" && (Tags[\"command\"] in ["
        ++ quote is_print help_command
        ++ codes "])) || Name == \"chat\"",
  ),
  record w { cache = configured_cache lib cfg.cache_size w.cache },
)
