-- ===== src/Filter/TagUpdates/Slices.antt =====
-- Slices of integers in a tag (filter/tags.go).
use lightspeed_chat.Base.{
  ◌>>=◌, ℕ, zero, suc, ℤ, pos, negsuc, ◌+◌, ◌/◌, ◌%◌, ◌≡◌, ◌≢◌, refl, ap, ◌∙◌, Text, true, some,
  List, [], ◌∷◌, ◌++◌, map, All, All-append, length, set, lookup, insert, lookup-insert,
  text_eq_refl, ltb, ◌<◌, length-set, returns, arith, Bool-cases, inl, inr,
}
use lightspeed_chat.Strings.{split, join}
use lightspeed_chat.Strconv.{format_int, decimal}
use lightspeed_chat.Strconv.RoundTrip.{InRange}
use lightspeed_chat.Types.{Tags, TagUpdate}
use lightspeed_chat.Filter.TagUpdates.{
  as_int, as_int_slice, set_item, store_slice, apply_value, apply_update, helpers, int_slice_type,
  or_empty,
}
use lightspeed_chat.Filter.{ExprLib}
use lightspeed_chat.Filter.TagUpdates.Numbers.{as_int-format_int, as_int-InRange}

-- A text without commas.
abbrev IsPart : Text → Type 0
IsPart = All (λ c. c ≢ b',')

split-part : (part : Text) → IsPart part → split b',' part ≡ part ∷ []
unfolding split
split-part [] h = refl
split-part (c ∷ part) h = ground (arith, h, split-part part h.1)

split-part-comma :
    (part rest : Text) → IsPart part → split b',' (part ++ (b',' ∷ rest)) ≡ part ∷ split b',' rest
unfolding split
split-part-comma [] rest h = refl
split-part-comma (c ∷ part) rest h = ground (arith, h, split-part-comma part rest h.1)

split-join :
    (part : Text) (parts : List Text)
    → All IsPart (part ∷ parts)
    → split b',' (join b',' (part ∷ parts)) ≡ part ∷ parts
unfolding join
split-join part [] h = split-part part h.0
split-join part (next ∷ parts) h =
    split-part-comma part (join b',' (next ∷ parts)) h.0
    ∙ ap (λ t. part ∷ t) (split-join next parts h.1)

decimal-IsPart : (fuel n : ℕ) → IsPart (decimal fuel n)
unfolding decimal
decimal-IsPart zero n = tt
decimal-IsPart (suc fuel) n = elim (Bool-cases (ltb n 10)) [
  | inl small ↦ rw small (ground arith, tt)
  | inr large ↦ rw large (
      All-append (λ c. c ≢ b',') (decimal fuel (n / 10)) ((48 + n % 10) ∷ [])
        (decimal-IsPart fuel (n / 10)) (omega arith, tt))
]

format_int-IsPart : (v : ℤ) → IsPart (format_int v)
unfolding format_int
format_int-IsPart (pos n) = decimal-IsPart (suc n) n
format_int-IsPart (negsuc n) = (omega arith, decimal-IsPart (suc (suc n)) (suc n))

map-as_int-format_int : (vs : List ℤ) → All InRange vs → map as_int (map format_int vs) ≡ vs
map-as_int-format_int [] h = refl
map-as_int-format_int (v ∷ vs) h = rw (as_int-format_int v h.0, map-as_int-format_int vs h.1) refl

map_as_int-InRange : (parts : List Text) → All InRange (map as_int parts)
map_as_int-InRange [] = tt
map_as_int-InRange (s ∷ parts) = (as_int-InRange s, map_as_int-InRange parts)

formats-AreParts : (vs : List ℤ) → All IsPart (map format_int vs)
formats-AreParts [] = tt
formats-AreParts (v ∷ vs) = (format_int-IsPart v, formats-AreParts vs)

as_int_slice-join :
    (vs : List ℤ)
    → 0 < length vs
    → All InRange vs
    → as_int_slice (join b',' (map format_int vs)) ≡ vs
unfolding as_int_slice
as_int_slice-join [] p h = elim p [ ]
as_int_slice-join (v ∷ vs) p h =
    ap (map as_int) (split-join (format_int v) (map format_int vs) (formats-AreParts (v ∷ vs)))
    ∙ map-as_int-format_int (v ∷ vs) h

set-InRange : (vs : List ℤ) (i : ℕ) (v : ℤ) → InRange v → All InRange vs → All InRange (set vs i v)
set-InRange [] i v hv h = h
set-InRange (x ∷ vs) zero v hv h = (hv, h.1)
set-InRange (x ∷ vs) (suc i) v hv h = (h.0, set-InRange vs i v hv h.1)

abbrev pub ints : Text → Tags → List ℤ
ints name tags = as_int_slice (or_empty (lookup name tags))

ints-InRange : (name : Text) (tags : Tags) → All InRange (ints name tags)
unfolding as_int_slice
ints-InRange name tags = map_as_int-InRange (split b',' (or_empty (lookup name tags)))

set_item-in_range :
    (name : Text) (values : List ℤ) (i : ℕ) (v : ℤ) (tags : Tags)
    → i < length values
    → set_item format_int name values (pos i) v tags
      ≡ returns (insert name (join b',' (map format_int (set values i v))) tags)
unfolding set_item
set_item-in_range name values i v tags h = ground (arith, h)

lookup-insert_self : (k v : Text) (tags : Tags) → lookup k (insert k v tags) ≡ some v
lookup-insert_self k v tags = rw (lookup-insert k k v tags, text_eq_refl k) refl

insert-ints :
    (name : Text) (values : List ℤ) (tags : Tags)
    → 0 < length values
    → All InRange values
    → ints name (insert name (join b',' (map format_int values)) tags) ≡ values
insert-ints name values tags p h =
    ap (λ t. as_int_slice (or_empty t))
      (lookup-insert_self name (join b',' (map format_int values)) tags)
    ∙ as_int_slice-join values p h

module _ (lib : ExprLib) where
  open lib use {Value}

  -- An update of type int slice whose expression has an int64 as its value, at an index that the
  -- slice has, is reported as done and does not panic, and AsIntSlice reads the tag afterwards as
  -- it read it before but for that value at the index.
  pub apply_update-ints :
      (u : TagUpdate) (i : ℕ) (x : Value) (v : ℤ) (tags : Tags)
      → u.type ≡ pos int_slice_type
      → u.index ≡ pos i
      → lib.eval u.expression (record { tags = tags; helpers = helpers lib }) ≡ some x
      → lib.decode_int x ≡ some v
      → i < length (ints u.name tags)
      → InRange v
      → (tags' : Tags) × (apply_update lib u tags ≡ returns (tags', true))
        × (ints u.name tags' ≡ set (ints u.name tags) i v)
  unfolding apply_update apply_value store_slice
  apply_update-ints u i x v tags ht hi he hd lt hv = (
    insert u.name (join b',' (map format_int (set (ints u.name tags) i v))) tags,
    rw (he, ht, hd, hi, apply_update, apply_value, store_slice)
        (ap (λ r. r >>= λ t. returns (t, true))
          (set_item-in_range u.name (ints u.name tags) i v tags lt)),
    insert-ints u.name (set (ints u.name tags) i v) tags
        (omega (arith, length-set (ints u.name tags) i v))
        (set-InRange (ints u.name tags) i v hv (ints-InRange u.name tags)),
  )
