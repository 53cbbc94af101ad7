-- ===== src/Filter/TagUpdates/Update.antt =====
-- What UpdateTags does to the map, on every path (filter/tags.go).
use lightspeed_chat.Base.{
  suc, ℤ, pos, negsuc, ◌≡◌, ◌≢◌, refl, ap, ◌∙◌, Text, lookup, insert, lookup-insert, Bool, true,
  false, Option, none, some, List, [], ◌∷◌, map, length, if◌then◌else◌, Run, returns, panics,
  runs_on, ◌>>=◌, Ensures, Ensures-if, text_eq_iff, arith, ltb,
}
use lightspeed_chat.Types.{Tags, TagUpdate}
use lightspeed_chat.Filter.{ExprLib}
use lightspeed_chat.Filter.TagUpdates.{
  set_item, store_string, store_slice, apply_value, apply_update, apply_updates, update_tags,
  string_type, int_type, float_type, string_slice_type, int_slice_type, float_slice_type, or_empty,
  as_string_slice, as_int_slice, as_float_slice, helpers, is_type,
}
use lightspeed_chat.Strconv.{format_int}

-- One update leaves all other keys alone, and changes nothing if it is reported as not done.
pub record Touches (name : Text) (before : Tags) (r : Tags × Bool) : Type 0 where
  pub elsewhere : (k : Text) → name ≢ k → lookup k r.0 ≡ lookup k before
  pub undone : r.1 ≡ false → r.0 ≡ before

Touches-nothing : (name : Text) (tags : Tags) (b : Bool) → Touches name tags (tags, b)
Touches-nothing name tags b = record { elsewhere = λ k h. refl; undone = λ h. refl }

Touches-insert : (name v : Text) (tags : Tags) → Touches name tags (insert name v tags, true)
Touches-insert name v tags = record {
  elsewhere = λ k h. ground (arith, lookup-insert name k v tags, text_eq_iff name k);
  undone = λ h. cc;
}

Touches-if :
    (name : Text) (before : Tags) (b : Bool) (x y : Tags)
    → Touches name before (x, true)
    → Touches name before (y, true)
    → Touches name before (if b then x else y, true)
Touches-if name before true x y hx hy = hx
Touches-if name before false x y hx hy = hy

Touches-store_string :
    (name : Text) (v : Option Text) (tags : Tags)
    → Ensures (Touches name tags) (store_string name v tags)
unfolding store_string
Touches-store_string name none tags = Touches-nothing name tags false
Touches-store_string name (some v) tags = Touches-insert name v tags

Touches-store_slice :
    {A : Type 0} (show : A → Text) (read : Text → List A) (u : TagUpdate) (v : Option A)
    (tags : Tags)
    → Ensures (Touches u.name tags) (store_slice show read u v tags)
unfolding store_slice
Touches-store_slice show read u none tags = Touches-nothing u.name tags false
Touches-store_slice show read u (some v) tags = go (read (or_empty (lookup u.name tags))) u.index
  where
    go :
        (values : List _) (i : ℤ)
        → Ensures
            (Touches u.name tags)
            (set_item show u.name values i v tags >>= λ t. returns (t, true))
    go values (negsuc i) = tt
    go values (pos i) =
        Touches-if u.name tags (ltb i (length values)) _ _ (Touches-insert u.name _ tags)
          (Touches-nothing u.name tags true)

-- No update whose name is the key is reported as done.
abbrev pub Spares : Text → List TagUpdate → List Bool → Type 0
Spares k (u ∷ updates) (true ∷ oks) = (u.name ≢ k) × Spares k updates oks
Spares k (u ∷ updates) (false ∷ oks) = Spares k updates oks
Spares k _ _ = Unit

pub record Reports (updates : List TagUpdate) (before : Tags) (r : Tags × List Bool) : Type 0 where
  pub counted : length r.1 ≡ length updates
  pub spared : (k : Text) → Spares k updates r.1 → lookup k r.0 ≡ lookup k before

Reports-cons :
    (u : TagUpdate) (updates : List TagUpdate) (tags t : Tags) (b : Bool) (r : Tags × List Bool)
    → Touches u.name tags (t, b)
    → Reports updates t r
    → Reports (u ∷ updates) tags (r.0, b ∷ r.1)
Reports-cons u updates tags t true r h q = record {
  counted = ap suc q.counted;
  spared = λ k sp. q.spared k sp.1 ∙ h.elsewhere k sp.0;
}
Reports-cons u updates tags t false r h q = record {
  counted = ap suc q.counted;
  spared = λ k sp. q.spared k sp ∙ ap (lookup k) (h.undone refl);
}

module _ (lib : ExprLib) where
  apply_value-Touches :
      (u : TagUpdate) (v : lib.Value) (tags : Tags)
      → Ensures (Touches u.name tags) (apply_value lib u v tags)
  unfolding apply_value
  apply_value-Touches u v tags =
      let P = Touches u.name tags in
      Ensures-if P (is_type u.type string_type) _ _ (λ _. Touches-store_string u.name _ tags)
        λ _.
          Ensures-if P (is_type u.type int_type) _ _ (λ _. Touches-store_string u.name _ tags)
            λ _.
              Ensures-if P (is_type u.type float_type) _ _ (λ _. Touches-store_string u.name _ tags)
                λ _.
                  Ensures-if P (is_type u.type string_slice_type) _ _
                    (λ _. Touches-store_slice (λ v. v) as_string_slice u _ tags)
                    λ _.
                      Ensures-if P (is_type u.type int_slice_type) _ _
                        (λ _. Touches-store_slice format_int as_int_slice u _ tags)
                        λ _.
                          Ensures-if P (is_type u.type float_slice_type) _ _
                            (λ _.
                              Touches-store_slice lib.format_float (as_float_slice lib) u _ tags)
                            (λ _. Touches-nothing u.name tags true)

  apply_update-Touches :
      (u : TagUpdate) (tags : Tags) → Ensures (Touches u.name tags) (apply_update lib u tags)
  unfolding apply_update
  apply_update-Touches u tags =
      elim (lib.eval u.expression (record { tags = tags; helpers = helpers lib }))
        as (λ o.
          Ensures (Touches u.name tags)
            (elim o [ none ↦ returns (tags, false) | some v ↦ apply_value lib u v tags ])) [
              | none ↦ Touches-nothing u.name tags false
              | some v ↦ apply_value-Touches u v tags
            ]

  apply_updates-Reports :
      (updates : List TagUpdate) (tags : Tags)
      → Ensures (Reports updates tags) (apply_updates lib updates tags)
  unfolding apply_updates
  apply_updates-Reports [] tags = record { counted = refl; spared = λ k h. refl }
  apply_updates-Reports (u ∷ updates) tags =
      go (apply_update lib u tags) (apply_update-Touches u tags)
        (λ t. apply_updates-Reports updates t)
    where
      after :
          (t : Tags) (b : Bool)
          → Touches u.name tags (t, b)
          → (r : Run (Tags × List Bool)) → Ensures (Reports updates t) r
          → Ensures (Reports (u ∷ updates) tags) (r >>= λ (t', oks). returns (t', b ∷ oks))
      after t b h (returns r) q = Reports-cons u updates tags t b r h q
      after t b h panics q = tt
      after t b h runs_on q = q

      go :
          (r : Run (Tags × Bool))
          → Ensures (Touches u.name tags) r
          → ((t : Tags) → Ensures (Reports updates t) (apply_updates lib updates t))
          → Ensures
              (Reports (u ∷ updates) tags)
              (r >>= λ (t, b). apply_updates lib updates t >>= λ (t', oks). returns (t', b ∷ oks))
      go (returns r) h ih = after r.0 r.1 h _ (ih r.0)
      go panics h ih = tt
      go runs_on h ih = h

  abbrev pub Updated : List TagUpdate → Option Tags → Option Tags × List Bool → Type 0
  Updated updates none r = (r.0 ≡ none) × (r.1 ≡ map (λ _. false) updates)
  Updated updates (some before) (none, oks) = ⊥
  Updated updates (some before) (some tags, oks) = Reports updates before (tags, oks)

  -- UpdateTags never runs on, whatever the expressions evaluate to. Where it does not panic: a nil
  -- map stays nil and no update is reported as done; on a map, there is one report for each update,
  -- and a key named by no update that is reported as done reads as before.
  pub update_tags-Updated :
      (updates : List TagUpdate) (tags : Option Tags)
      → Ensures (Updated updates tags) (update_tags lib tags updates)
  unfolding update_tags
  update_tags-Updated updates none = (refl, refl)
  update_tags-Updated updates (some tags) =
      go (apply_updates lib updates tags) (apply_updates-Reports updates tags)
    where
      go :
          (r : Run (Tags × List Bool))
          → Ensures (Reports updates tags) r
          → Ensures (Updated updates (some tags)) (r >>= λ (t, oks). returns (some t, oks))
      go (returns r) h = h
      go panics h = tt
      go runs_on h = h
