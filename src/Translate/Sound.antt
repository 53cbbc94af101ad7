-- ===== src/Translate/Sound.antt =====
-- The cache of the translation plugin holds translations only, and `translation` returns nothing else
-- (plugins/lightspeed-chat-google-translate-plugin/main.go).
use lightspeed_chat.Base.{
  ℕ, zero, suc, Text, Bool, true, false, ◌≡◌, refl, sym, subst, inl, inr, Option, none, some, List,
  [], ◌∷◌, get_elem?, set, length, ltb, text_eq, if◌then◌else◌, returns, ◌>>=◌, Ensures,
  Ensures-bind, Ensures-if,
}
use mathlib.Core.Option.{some-injective}
use lightspeed_chat.Delivery.{deref}
use lightspeed_chat.Strings.{first_two}
use lightspeed_chat.Translate.{
  Config, CacheKey, Request, Translation, TranslateLib, World, set_at, chosen, cache_get, cache_add,
  hit_or_miss, look_up, keep, fill, answered, connected, ask, translation,
}
use lightspeed_chat.Translate.Law.{AreTranslations, AreTranslated, IsTranslator}

-- The texts at the indices.
abbrev AreChosen : List Text → List ℕ → List Text → Type 0
AreChosen src [] [] = Unit
AreChosen src (i ∷ idx) (text ∷ texts) = (get_elem? src i ≡ some text) × AreChosen src idx texts
AreChosen src _ _ = ⊥

chosen-AreChosen : (src : List Text) (idx : List ℕ) → Ensures (AreChosen src idx) (chosen src idx)
unfolding chosen
chosen-AreChosen src [] = tt
chosen-AreChosen src (i ∷ idx) = go (get_elem? src i) refl (chosen-AreChosen src idx)
  where
    go :
        (o : Option Text)
        → get_elem? src i ≡ o
        → Ensures (AreChosen src idx) (chosen src idx)
        → Ensures
            (AreChosen src (i ∷ idx))
            (do text ← deref o; texts ← chosen src idx; returns (text ∷ texts))
    go none e rest = tt
    go (some text) e rest =
        Ensures-bind (AreChosen src idx) (AreChosen src (i ∷ idx)) (chosen src idx) _ rest
          (λ texts h. (e, h))

set-AreTranslated :
    (means : Text → Text → Type 0) (src texts : List Text) (i : ℕ) (source text : Text)
    → get_elem? src i ≡ some source
    → means source text
    → AreTranslated means src texts
    → AreTranslated means src (set texts i text)
set-AreTranslated means [] texts i source text at same h = cc at
set-AreTranslated means (s ∷ src) [] i source text at same h = h
set-AreTranslated means (s ∷ src) (t ∷ texts) zero source text at same h =
    (inr (subst (λ x. means x text) (some-injective source s (sym at)) same), h.1)
set-AreTranslated means (s ∷ src) (t ∷ texts) (suc i) source text at same h =
    (h.0, set-AreTranslated means src texts i source text at same h.1)

pub first_two-Ends : (t : Text) → Ensures (λ _. Unit {0}) (first_two t)
first_two-Ends t = Ensures-if (λ _. Unit {0}) (ltb (length t) 2) _ _ (λ _. tt) (λ _. tt)

module _ (lib : TranslateLib) (law : IsTranslator lib) where
  open lib use {Cache, Service}
  open law use {translates, holds}

  -- The cache, if there is one, holds translations only.
  abbrev pub IsSound : Option Cache → Type 0
  IsSound none = Unit
  IsSound (some c) =
      (key : CacheKey) (text : Text)
      → holds c key text
      → translates key.target_language key.text text

  abbrev Found : Text → Text → Option Text → Type 0
  Found language text none = Unit
  Found language text (some found) = translates language text found

  get-IsSound :
      (language text : Text) (c : Option Cache)
      → IsSound c
      → Ensures
          (λ (r : Option Text × Option Cache). Found language text r.0 × IsSound r.1)
          (cache_get lib (record { target_language = language; text = text }) c)
  get-IsSound language text none h = tt
  get-IsSound language text (some c) h =
      (known (lib.get key c).0 refl, λ k t held. h k t (law.get-keeps k key c t held))
    where
      key : CacheKey
      key = record { target_language = language; text = text }

      known : (o : Option Text) → (lib.get key c).0 ≡ o → Found language text o
      known none e = tt
      known (some t) e = h key t (law.get-held key c t e)

  add-IsSound :
      (language source text : Text) (c : Option Cache)
      → translates language source text
      → IsSound c
      → Ensures IsSound
          (cache_add lib (record { target_language = language; text = source }) text c)
  add-IsSound language source text none same h = tt
  add-IsSound language source text (some c) same h = λ key t held.
      elim (law.add-held key (record { target_language = language; text = source }) c t text held) [
        | inl (k, new) ↦
            subst (translates key.target_language key.text) (sym new)
              (subst (λ (x : CacheKey). translates x.target_language x.text text) (sym k) same)
        | inr old ↦ h key t old
      ]

  -- What the first loop leaves.
  abbrev Looked : Text → List Text → List Text × List ℕ × Option Cache → Type 0
  Looked language src (translations, idx, c) =
      AreTranslated (translates language) src translations × IsSound c

  look_up-Looked :
      (language : Text) (src : List Text) (i : ℕ) (c : Option Cache)
      → IsSound c
      → Ensures (Looked language src) (look_up lib language src i c)
  unfolding look_up
  look_up-Looked language [] i c h = (tt, h)
  look_up-Looked language (text ∷ src) i c h =
      Ensures-bind (λ (r : Option Text × Option Cache). Found language text r.0 × IsSound r.1)
        (Looked language (text ∷ src))
        (cache_get lib (record { target_language = language; text = text }) c) _
        (get-IsSound language text c h)
        λ (found, c') known.
          Ensures-bind (Looked language src) (Looked language (text ∷ src))
            (look_up lib language src (suc i) c') _ (look_up-Looked language src (suc i) c' known.1)
            (add_looked found known.0)
    where
      add_looked :
          (found : Option Text)
          → Found language text found
          → (rest : List Text × List ℕ × Option Cache) → Looked language src rest
          → Looked language (text ∷ src) (hit_or_miss lib i found rest)
      add_looked none known rest h = ((inl refl, h.0), h.1)
      add_looked (some t) known rest h = ((inr known, h.0), h.1)

  -- What the last loop leaves.
  abbrev Filled : Text → List Text → List Text × Option Cache → Type 0
  Filled language src (translations, c) =
      AreTranslated (translates language) src translations × IsSound c

  keep-Filled :
      (language : Text) (src : List Text) (i : ℕ) (idx : List ℕ) (source text : Text)
      (translations : List Text) (c : Option Cache)
      → get_elem? src i ≡ some source
      → translates language source text
      → Filled language src (translations, c)
      → Ensures (Filled language src) (keep lib language src (i ∷ idx) text translations c)
  unfolding keep
  keep-Filled language src i idx source text translations c at same h =
      Ensures-bind (λ ts. AreTranslated (translates language) src ts) (Filled language src)
        (set_at translations i text) _
        (Ensures-if (λ ts. AreTranslated (translates language) src ts) (ltb i (length translations))
          _ _
          (λ _. set-AreTranslated (translates language) src translations i source text at same h.0)
          (λ _. tt))
        λ ts translated. rw at (
          Ensures-bind IsSound (Filled language src)
            (cache_add lib (record { target_language = language; text = source }) text c) _
            (add-IsSound language source text c same h.1) (λ c' sound. (translated, sound)))

  fill-Filled :
      (language : Text) (src : List Text) (idx : List ℕ) (texts : List Text)
      (answer : List Translation) (translations : List Text) (c : Option Cache)
      → AreChosen src idx texts
      → AreTranslations lib (translates language) texts answer
      → Filled language src (translations, c)
      → Ensures (Filled language src) (fill lib language src idx answer translations c)
  unfolding fill
  fill-Filled language src idx texts [] translations c at means h = h
  fill-Filled language src [] [] (t ∷ answer) translations c at means h = absurd means
  fill-Filled language src [] (text ∷ texts) (t ∷ answer) translations c at means h = absurd at
  fill-Filled language src (i ∷ idx) [] (t ∷ answer) translations c at means h = absurd means
  fill-Filled language src (i ∷ idx) (text ∷ texts) (t ∷ answer) translations c at means h =
      Ensures-bind (λ _. Unit {0}) (Filled language src) _ _
        (first_two-Ends t.detected_language_code)
        λ detected _.
          Ensures-bind (λ _. Unit {0}) (Filled language src) _ _ (first_two-Ends language)
            λ wanted _.
              Ensures-bind (Filled language src) (Filled language src)
                (if text_eq detected wanted
                  then returns (translations, c)
                  else keep lib language src (i ∷ idx) (lib.unescape t.translated_text) translations
                      c)
                _
                (Ensures-if (Filled language src) (text_eq detected wanted) _ _ (λ _. h)
                  (λ _.
                    keep-Filled language src i idx text (lib.unescape t.translated_text)
                      translations c at.0 means.0 h))
                λ (translations', c') kept.
                  fill-Filled language src idx texts answer translations' c' at.1 means.1 kept

  -- What `translation` leaves.
  abbrev pub Translated : Text → List Text → Option (List Text) × World lib → Type 0
  Translated language src (none, w) = IsSound w.cache
  Translated language src (some texts, w) =
      AreTranslated (translates language) src texts × IsSound w.cache

  answered-Translated :
      (language : Text) (src : List Text) (idx : List ℕ) (texts translations : List Text)
      (c : Option Cache) (request : Request) (end : Option (List Translation) × Service)
      (s : Service)
      → request.target_language_code ≡ language
      → request.contents ≡ texts
      → lib.translate_text request s ≡ end
      → AreChosen src idx texts
      → Filled language src (translations, c)
      → Ensures (Translated language src) (answered lib language src idx translations c end)
  answered-Translated language src idx texts translations c request (none, s') s target all e at h =
      h.1
  answered-Translated language src idx texts translations c request (some answer, s') s target all e
        at h =
      Ensures-bind (Filled language src) (Translated language src)
        (fill lib language src idx answer translations c) _
        (fill-Filled language src idx texts answer translations c at
          (rw (target, all) at (law.translate_text-AreTranslations request s s' answer e)) h)
        (λ _ filled. filled)

  connected-Translated :
      (cfg : Config) (language : Text) (src : List Text) (idx : List ℕ)
      (texts translations : List Text) (c : Option Cache) (end : Bool × Service)
      → AreChosen src idx texts
      → Filled language src (translations, c)
      → Ensures
          (Translated language src)
          (connected lib cfg language src idx texts translations c end)
  connected-Translated cfg language src idx texts translations c (false, s) at h = h.1
  connected-Translated cfg language src idx texts translations c (true, s) at h =
      answered-Translated language src idx texts translations c
        (record { contents = texts; target_language_code = language; project_id = cfg.project_id })
        _ s refl refl refl at h

  ask-Translated :
      (cfg : Config) (language : Text) (src : List Text) (s : Service)
      (looked : List Text × List ℕ × Option Cache)
      → Looked language src looked
      → Ensures (Translated language src) (ask lib cfg language src s looked)
  ask-Translated cfg language src s (translations, [], c) h = h
  ask-Translated cfg language src s (translations, i ∷ idx, c) h =
      Ensures-bind (AreChosen src (i ∷ idx)) (Translated language src) (chosen src (i ∷ idx)) _
        (chosen-AreChosen src (i ∷ idx))
        (λ texts at.
          connected-Translated cfg language src (i ∷ idx) texts translations c (lib.connect s) at h)

  pub translation-Translated :
      (cfg : Config) (src : List Text) (language : Text) (w : World lib)
      → IsSound w.cache
      → Ensures (Translated language src) (translation lib cfg src language w)
  unfolding translation
  translation-Translated cfg [] language w h = (tt, h)
  translation-Translated cfg (text ∷ src) language w h =
      Ensures-bind (Looked language (text ∷ src)) (Translated language (text ∷ src))
        (look_up lib language (text ∷ src) 0 w.cache) _
        (look_up-Looked language (text ∷ src) 0 w.cache h)
        (ask-Translated cfg language (text ∷ src) w.service)
