-- ===== src/Translate/Uncached.antt =====
-- HandleEvents of the translation plugin panics where there is no cache
-- (plugins/lightspeed-chat-google-translate-plugin/main.go).
use lightspeed_chat.Base.{
  ℕ, suc, Text, codes, Bool, false, ◌≡◌, refl, none, some, List, [], ◌∷◌, ◌++◌, has_prefix, panics,
  pos, ltb_ℤ,
}
use lightspeed_chat.Types.{Source, Event, Stamp}
use lightspeed_chat.Types.EventType
use lightspeed_chat.BaseCommands.{tag}
use lightspeed_chat.Translate.{Config, TranslateLib, World}
use lightspeed_chat.Translate.Handler.{handle_event, range_events, handle_events, configure}
use lightspeed_chat.Translate.Halting.{
  panics-bind, uncached_chat, handle_event-Halts, panics_behind,
}

module _ (is_print : ℕ → Bool) (stamp : Stamp) (lib : TranslateLib) (cfg : Config) where
  module _ (language : Text) (languages : List Text)
      (several : cfg.languages ≡ language ∷ languages) where
    range_events-panics :
        (depth : ℕ) (before after : List Event) (event : Event) (source : Source) (message : Text)
        (w : World lib)
        → w.cache ≡ none
        → event.source ≡ some source
        → event.name ≡ EventType.chat
        → tag (codes "message") event ≡ some message
        → has_prefix message (codes "/") ≡ false
        → range_events is_print stamp lib cfg
            (handle_events is_print stamp lib cfg (suc depth))
            (before ++ (event ∷ after))
            w
          ≡ panics
    unfolding range_events
    range_events-panics depth [] after event source message w cold from chat said plain =
        panics-bind
          (handle_event is_print stamp lib cfg (handle_events is_print stamp lib cfg (suc depth))
            event w)
          _
          (uncached_chat is_print stamp lib cfg (handle_events is_print stamp lib cfg (suc depth))
            event source message language languages w cold several from chat said plain)
    range_events-panics depth (first ∷ before) after event source message w cold from chat said
          plain =
        let rest : range_events is_print stamp lib cfg
              (handle_events is_print stamp lib cfg (suc depth)) (before ++ (event ∷ after)) w
            ≡ panics =
          range_events-panics depth before after event source message w cold from chat said plain in
        panics_behind is_print stamp lib cfg language languages several w
          (handle_event is_print stamp lib cfg (handle_events is_print stamp lib cfg (suc depth))
            first w)
          _
          (handle_event-Halts is_print stamp lib cfg language languages several depth first w cold)
          (λ out. rw rest refl)

  -- Where Configure gets a cache size that is not positive, in a process that has no cache yet, and at
  -- least one language, HandleEvents panics afterwards on every batch with a chat message that is no
  -- command, wherever in the batch it stands.
  pub handle_events-uncached :
      (depth : ℕ) (before after : List Event) (event : Event) (source : Source)
      (message language : Text) (languages : List Text) (w : World lib)
      → w.cache ≡ none
      → ltb_ℤ (pos 0) cfg.cache_size ≡ false
      → cfg.languages ≡ language ∷ languages
      → event.source ≡ some source
      → event.name ≡ EventType.chat
      → tag (codes "message") event ≡ some message
      → has_prefix message (codes "/") ≡ false
      → handle_events is_print stamp lib cfg
          (suc (suc depth))
          (before ++ (event ∷ after))
          (configure is_print lib (some cfg) w).1
        ≡ panics
  unfolding handle_events configure
  handle_events-uncached depth before after event source message language languages w fresh small
        several from chat said plain =
      range_events-panics language languages several depth before after event source message
        (configure is_print lib (some cfg) w).1 (rw small fresh) from chat said plain
