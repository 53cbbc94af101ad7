-- ===== src/Strings.antt =====
-- The functions of package strings that the code calls, over bytes: Split and Join at a separator of
-- one byte, Fields and TrimSpace. HasPrefix is in Base.
pub mod Words
pub mod Split
use lightspeed_chat.Base.{
  ℕ, zero, suc, ◌-◌, Text, Bool, true, false, ◌&&◌, ◌||◌, List, [], ◌∷◌, ◌++◌, leb, ◌==◌,
  if◌then◌else◌, ltb, length, take, Run, returns, panics,
}

abbrev pub cons_head : ℕ → List Text → List Text
cons_head c [] = (c ∷ []) ∷ []
cons_head c (part ∷ parts) = (c ∷ part) ∷ parts

-- `strings.Split(s, sep)`: one part more than separators.
unfoldable pub split : ℕ → Text → List Text
split sep [] = [] ∷ []
split sep (c ∷ s) = let rest = split sep s in if c == sep then [] ∷ rest else cons_head c rest

-- `strings.Join(parts, sep)`
unfoldable pub join : ℕ → List Text → Text
join sep [] = []
join sep (part ∷ []) = part
join sep (part ∷ next ∷ parts) = part ++ (sep ∷ join sep (next ∷ parts))

-- `s[:2]`, which panics on a shorter text.
abbrev pub first_two : Text → Run Text
first_two s = if ltb (length s) 2 then panics else returns (take 2 s)

-- The runes of `unicode.IsSpace` in UTF-8, of one, two and three bytes.
unfoldable pub space_ascii : ℕ → Bool
space_ascii c = c == 32 || (leb 9 c && leb c 13)

-- U+0085 and U+00A0.
unfoldable pub space_two : ℕ → ℕ → Bool
space_two a b = a == 0xC2 && (b == 0x85 || b == 0xA0)

-- U+1680, U+2000 to U+200A, U+2028, U+2029, U+202F, U+205F and U+3000.
unfoldable pub space_three : ℕ → ℕ → ℕ → Bool
space_three a b c =
    (a == 0xE1 && b == 0x9A && c == 0x80)
    || (a == 0xE2 && b == 0x80 && (leb 0x80 c && leb c 0x8A || c == 0xA8 || c == 0xA9 || c == 0xAF))
    || (a == 0xE2 && b == 0x81 && c == 0x9F)
    || (a == 0xE3 && b == 0x80 && c == 0x80)

-- How many bytes the white space at the front of the text takes, 0 where there is none. A sequence
-- above starts with a byte that continues no rune, so a scan byte by byte finds the same runes as a
-- scan rune by rune.
unfoldable pub space_width : Text → ℕ
unfolding space_ascii space_two space_three
space_width [] = 0
space_width (a ∷ []) = if space_ascii a then 1 else 0
space_width (a ∷ b ∷ []) = if space_ascii a then 1 else if space_two a b then 2 else 0
space_width (a ∷ b ∷ c ∷ s) =
    if space_ascii a then 1 else if space_two a b then 2 else if space_three a b c then 3 else 0

-- The text behind its leading white space, of which `k` more bytes are known.
unfoldable pub trim_from : ℕ → Text → Text
trim_from k [] = []
trim_from (suc k) (c ∷ s) = trim_from k s
trim_from zero (c ∷ s) =
    let w = space_width (c ∷ s) in let rest = trim_from (w - 1) s in if w == 0 then c ∷ s else rest

unfoldable pub trim_left : Text → Text
unfolding trim_from space_width
trim_left = trim_from 0

abbrev pub is_empty {ℓ} : {A : Type ℓ} → List A → Bool
is_empty [] = true
is_empty (x ∷ xs) = false

-- A text of white space only.
unfoldable pub is_blank : Text → Bool
unfolding trim_left
is_blank s = is_empty (trim_left s)

-- The text without its trailing white space: a byte goes if the text from it on is blank.
unfoldable pub trim_right : Text → Text
unfolding is_blank
trim_right [] = []
trim_right (c ∷ s) = let rest = trim_right s in if is_blank (c ∷ s) then [] else c ∷ rest

-- `strings.TrimSpace(s)`
unfoldable pub trim_space : Text → Text
unfolding trim_right trim_left
trim_space s = trim_right (trim_left s)

abbrev pub push : Text → List Text → List Text
push [] words = words
push (c ∷ word) words = (c ∷ word) ∷ words

-- The word at the very front of the text, empty where there is none, and the words behind it. The
-- first `k` bytes belong to white space.
unfoldable pub scan : ℕ → Text → Text × List Text
scan k [] = ([], [])
scan (suc k) (c ∷ s) = let (word, words) = scan k s in ([], push word words)
scan zero (c ∷ s) =
    let w = space_width (c ∷ s) in
    let (word, words) = scan (w - 1) s in
    if w == 0 then (c ∷ word, words) else ([], push word words)

-- `strings.Fields(s)`
unfoldable pub fields : Text → List Text
unfolding scan space_width
fields s = let (word, words) = scan 0 s in push word words
