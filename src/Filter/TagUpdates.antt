-- ===== src/Filter/TagUpdates.antt =====
-- Updates of tags and the helper functions of the expressions (filter/tags.go).
pub mod Update
pub mod Numbers
pub mod Slices
use lightspeed_chat.Base.{
  ℕ, zero, suc, ℤ, pos, negsuc, Text, codes, Dict, lookup, insert, Bool, true, false, Option, none,
  some, List, [], ◌∷◌, map, length, set, ltb, ◌==◌, if◌then◌else◌, Run, returns, panics, ◌>>=◌,
  text_eq,
}
use mathlib.Core.Option
use lightspeed_chat.Strings.{split, join}
use lightspeed_chat.Strconv.{parse_int, format_int}
use lightspeed_chat.Types.{Tags, TagUpdate}
use lightspeed_chat.Filter.{Helpers, TagsEnv, ExprLib}

-- The value of ParseInt, whatever its error.
unfoldable pub as_int : Text → ℤ
as_int v = (parse_int v).0

unfoldable pub as_string_slice : Text → List Text
as_string_slice v = split b',' v

unfoldable pub as_int_slice : Text → List ℤ
unfolding as_int
as_int_slice v = map as_int (split b',' v)

-- A missing key reads as the empty string.
abbrev pub or_empty : Option Text → Text
or_empty none = []
or_empty (some v) = v

-- `tag_value_type` of types/tags.go.
abbrev pub string_type : ℕ
string_type = 0

abbrev pub int_type : ℕ
int_type = 1

abbrev pub float_type : ℕ
float_type = 2

abbrev pub string_slice_type : ℕ
string_slice_type = 3

abbrev pub int_slice_type : ℕ
int_slice_type = 4

abbrev pub float_slice_type : ℕ
float_slice_type = 5

-- `update.Type == k` for a constant that is not negative.
abbrev pub is_type : ℤ → ℕ → Bool
is_type (pos n) k = n == k
is_type (negsuc n) k = false

-- `if len(values) > index { values[index] = value; tags[name] = Join(show(values)) }`. A negative
-- index passes the test and is out of range.
unfoldable pub set_item : {A : Type 0} → (A → Text) → Text → List A → ℤ → A → Tags → Run Tags
set_item show name values (pos i) v tags = returns (
    if ltb i (length values)
    then insert name (join b',' (map show (set values i v))) tags
    else tags)
set_item show name values (negsuc i) v tags = panics

-- The map after an update and whether the update is reported as done. `none` is the error of the
-- decoding, which leaves the round of the loop.
unfoldable pub store_string : Text → Option Text → Tags → Run (Tags × Bool)
store_string name none tags = returns (tags, false)
store_string name (some v) tags = returns (insert name v tags, true)

unfoldable pub store_slice :
    {A : Type 0} → (A → Text) → (Text → List A) → TagUpdate → Option A → Tags → Run (Tags × Bool)
unfolding set_item
store_slice show read u none tags = returns (tags, false)
store_slice show read u (some v) tags = do
  tags' ← set_item show u.name (read (or_empty (lookup u.name tags))) u.index v tags
  returns (tags', true)

module _ (lib : ExprLib) where
  open lib use {Float, Value}

  unfoldable pub as_float : Text → Float
  as_float v = lib.parse_float v

  unfoldable pub as_float_slice : Text → List Float
  unfolding as_float
  as_float_slice v = map as_float (split b',' v)

  unfoldable pub helpers : Helpers Float
  unfolding as_int as_float as_string_slice as_int_slice as_float_slice
  helpers = record {
    as_int = as_int;
    as_float = as_float;
    as_string_slice = as_string_slice;
    as_int_slice = as_int_slice;
    as_float_slice = as_float_slice;
  }

  unfoldable pub apply_value : TagUpdate → Value → Tags → Run (Tags × Bool)
  unfolding store_string store_slice
  apply_value u v tags =
      if is_type u.type string_type
      then store_string u.name (lib.decode_string v) tags
      else if is_type u.type int_type
      then store_string u.name (Option.map format_int (lib.decode_int v)) tags
      else if is_type u.type float_type
      then store_string u.name (Option.map lib.format_float (lib.decode_float v)) tags
      else if is_type u.type string_slice_type
      then store_slice (λ v. v) as_string_slice u (lib.decode_string v) tags
      else if is_type u.type int_slice_type
      then store_slice format_int as_int_slice u (lib.decode_int v) tags
      else if is_type u.type float_slice_type
      then store_slice lib.format_float as_float_slice u (lib.decode_float v) tags
      else returns (tags, true)

  -- The round of the loop. The environment holds the map itself, so an expression sees what the
  -- updates before it have written.
  unfoldable pub apply_update : TagUpdate → Tags → Run (Tags × Bool)
  unfolding apply_value helpers
  apply_update u tags = elim (lib.eval u.expression (record { tags = tags; helpers = helpers })) [
    | none ↦ returns (tags, false)
    | some v ↦ apply_value u v tags
  ]

  -- `UpdateTags(tags, updates)` on a map that is not nil: the map afterwards and resOk.
  unfoldable pub apply_updates : List TagUpdate → Tags → Run (Tags × List Bool)
  unfolding apply_update
  apply_updates [] tags = returns (tags, [])
  apply_updates (u ∷ updates) tags = do
    (tags', done) ← apply_update u tags
    (tags'', oks) ← apply_updates updates tags'
    returns (tags'', done ∷ oks)

  -- `UpdateTags`. A nil map is left alone, and no update is reported as done.
  unfoldable pub update_tags : Option Tags → List TagUpdate → Run (Option Tags × List Bool)
  unfolding apply_updates
  update_tags none updates = returns (none, map (λ _. false) updates)
  update_tags (some tags) updates = do
    (tags', oks) ← apply_updates updates tags
    returns (some tags', oks)
