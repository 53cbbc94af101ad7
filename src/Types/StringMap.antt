-- ===== src/Types/StringMap.antt =====
-- The conversions of a map of tags for the database and for JSON (types/stringmap.go); encoding/json is a
-- parameter.
use lightspeed_chat.Base.{
  Text, codes, Bool, true, false, ◌≡◌, refl, Option, none, some, [], ◌⊎◌, ap, subst, inl, inr,
  arith,
}
use lightspeed_chat.Types.{Tags}

-- `json.Marshal` of a map, none for an error, and `json.Unmarshal` into an empty map: what it leaves,
-- nil for the text `null`, and whether it succeeds.
pub record TagsJson : Type 0 where
  pub marshal : Tags → Option Text
  pub unmarshal : Text → Option Tags × Bool

-- What a database column holds or is given.
pub data Value : Type 0 where
  null : Value
  text bytes : Text → Value
  other : Value

module _ (json : TagsJson) where
  -- `MarshalJSON` and `UnmarshalJSON`; the error of the latter is in the second part.
  unfoldable pub marshal_json : Option Tags → Option Text
  marshal_json none = some (codes "null")
  marshal_json (some tags) = json.marshal tags

  unfoldable pub unmarshal_json : Text → Option Tags × Bool
  unmarshal_json t = json.unmarshal t

  abbrev pub as_text : Option Text → Value × Bool
  as_text none = (text [], false)
  as_text (some t) = (text t, true)

  -- `Value`
  unfoldable pub value : Option Tags → Value × Bool
  unfolding marshal_json
  value none = (null, true)
  value (some tags) = as_text (marshal_json (some tags))

  -- `Scan`, over the map that is there, which stays on a value of another type.
  unfoldable pub scan : Value → Option Tags → Option Tags × Bool
  scan (bytes t) m = json.unmarshal t
  scan (text t) m = json.unmarshal t
  scan null m = (m, false)
  scan other m = (m, false)

  -- What encoding/json documents.
  abbrev pub ReadsBack : Type 0
  ReadsBack =
      (tags : Tags) (t : Text) → json.marshal tags ≡ some t → json.unmarshal t ≡ (some tags, true)

  -- A map that is not nil is read back from the value that it has in the database. That of a nil map is
  -- NULL, which Scan refuses.
  pub scan-value :
      ReadsBack
      → (tags : Option Tags) (v : Value) (old : Option Tags) → value tags ≡ (v, true)
      → ((tags ≡ none) × (scan v old ≡ (old, false))) ⊎ (scan v old ≡ (tags, true))
  unfolding value marshal_json scan
  scan-value law none v old h =
      inl (refl, subst (λ w. scan w old ≡ (old, false)) (ap (λ (p : Value × Bool). p.0) h) refl)
  scan-value law (some tags) v old h = go (json.marshal tags) refl h
    where
      go :
          (o : Option Text)
          → json.marshal tags ≡ o
          → as_text o ≡ (v, true)
          → ((some tags ≡ none) × (scan v old ≡ (old, false))) ⊎ (scan v old ≡ (some tags, true))
      go none e h = absurd (ground (arith, h))
      go (some t) e h = inr (
          subst (λ w. scan w old ≡ (some tags, true)) (ap (λ (p : Value × Bool). p.0) h)
            (law tags t e))
