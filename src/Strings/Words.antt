-- ===== src/Strings/Words.antt =====
-- The first word of Fields stands at the front of the text, behind its leading white space.
use lightspeed_chat.Base.{
  ℕ, zero, suc, ◌-◌, ◌≤◌, ◌≡◌, refl, Text, List, [], ◌∷◌, ◌++◌, length, length-append, arith, ◌==◌,
  Bool-cases, inl, inr, ap,
}
use lightspeed_chat.Strings.{space_width, trim_from, trim_left, push, scan, fields}

-- At the front of a text, `scan` finds a piece of the text.
scan-front : (s : Text) → (rest : Text) × (s ≡ (scan 0 s).0 ++ rest)
unfolding scan
scan-front [] = ([], refl)
scan-front (c ∷ s) = elim (Bool-cases (space_width (c ∷ s) == 0)) [
  | inl word ↦
      let at_once : space_width (c ∷ s) ≡ 0 = ground (arith, word) in
      let (rest, e) = scan-front s in (rest, rw (at_once, scan) (ap (λ t. c ∷ t) e))
  | inr space ↦ (c ∷ s, rw (space, scan) refl)
]

scan-first :
    (k : ℕ) (s word : Text) (words : List Text)
    → push (scan k s).0 (scan k s).1 ≡ word ∷ words
    → (rest : Text) × (trim_from k s ≡ word ++ rest)
unfolding scan trim_from
scan-first k [] word words h = cc
scan-first (suc k) (c ∷ s) word words h = scan-first k s word words h
scan-first zero (c ∷ s) word words h = elim (Bool-cases (space_width (c ∷ s) == 0)) [
  | inl front ↦
      let at_once : space_width (c ∷ s) ≡ 0 = ground (arith, front) in
      let (rest, e) = scan-front s in (rest, ground (arith, e))
  | inr space ↦
      let (rest, e) = scan-first (space_width (c ∷ s) - 1) s word words (ground arith) in
      (rest, ground (arith, e))
]

-- The first word is the front of the text without its leading white space.
pub fields-first :
    (s word : Text) (words : List Text)
    → fields s ≡ word ∷ words
    → (rest : Text) × (trim_left s ≡ word ++ rest)
unfolding fields trim_left
fields-first s = scan-first 0 s

-- A text that starts with no white space has a first word, with the same first byte.
pub fields-word :
    (c : ℕ) (s : Text)
    → space_width (c ∷ s) ≡ 0
    → (word : Text) × (words : List Text) × (fields (c ∷ s) ≡ (c ∷ word) ∷ words)
unfolding fields scan
fields-word c s h = ((scan 0 s).0, (scan 0 s).1, rw (h, scan) refl)

pub space_width-slash : (s : Text) → space_width (b'/' ∷ s) ≡ 0
unfolding space_width
space_width-slash [] = refl
space_width-slash (a ∷ []) = refl
space_width-slash (a ∷ b ∷ s) = refl

length-trim_from : (k : ℕ) (s : Text) → length (trim_from k s) ≤ length s
unfolding trim_from
length-trim_from k [] = omega arith
length-trim_from (suc k) (c ∷ s) = omega (arith, length-trim_from k s)
length-trim_from zero (c ∷ s) = ground (arith, length-trim_from (space_width (c ∷ s) - 1) s)

-- The first word is not longer than the text.
pub length-fields_first :
    (s word : Text) (words : List Text) → fields s ≡ word ∷ words → length word ≤ length s
unfolding trim_left
length-fields_first s word words h =
    let (rest, e) = fields-first s word words h in
    omega (arith, length-trim_from 0 s, ap length e, length-append word rest)
