-- ===== src/Strconv/Quote.antt =====
-- `strconv.Quote`, in the form that the versions of Go from 1.15 on share but for U+007F, which is
-- written as in 1.15. The code builds filter expressions with it.
pub mod Literal
use lightspeed_chat.Base.{
  ℕ, zero, suc, ◌+◌, ◌-◌, ◌*◌, ◌/◌, ◌%◌, Text, codes, Bool, true, false, ◌&&◌, ◌||◌, List, [], ◌∷◌,
  ◌++◌, ltb, leb, ◌==◌, if◌then◌else◌,
}

-- What `utf8.DecodeRuneInString` finds at the front: a rune and its width, or a byte that starts none.
pub data Decoded : Type 0 where
  rune : ℕ → ℕ → Decoded
  bad_byte : ℕ → Decoded

abbrev continues : ℕ → Bool
continues b = leb 0x80 b && leb b 0xBF

-- The range of the second byte depends on the first.
abbrev second : ℕ → ℕ → Bool
second a b =
    if a == 0xE0
    then leb 0xA0 b && leb b 0xBF
    else if a == 0xED
    then leb 0x80 b && leb b 0x9F
    else if a == 0xF0
    then leb 0x90 b && leb b 0xBF
    else if a == 0xF4
    then leb 0x80 b && leb b 0x8F
    else continues b

two_bytes : ℕ → ℕ → Decoded
two_bytes a b =
    if leb 0xC2 a && leb a 0xDF && continues b then rune (a % 32 * 64 + b % 64) 2 else bad_byte a

three_bytes : ℕ → ℕ → ℕ → Decoded
unfolding two_bytes
three_bytes a b c =
    if leb 0xE0 a && leb a 0xEF && second a b && continues c
    then rune (a % 16 * 4096 + b % 64 * 64 + c % 64) 3
    else two_bytes a b

four_bytes : ℕ → ℕ → ℕ → ℕ → Decoded
unfolding three_bytes
four_bytes a b c d =
    if leb 0xF0 a && leb a 0xF4 && second a b && continues c && continues d
    then rune (a % 8 * 262144 + b % 64 * 4096 + c % 64 * 64 + d % 64) 4
    else three_bytes a b c

unfoldable pub decode : ℕ → Text → Decoded
unfolding four_bytes
decode a s = if ltb a 0x80 then rune a 1 else elim s [
  | [] ↦ bad_byte a
  | b ∷ s' ↦ elim s' [
    | [] ↦ two_bytes a b
    | c ∷ s'' ↦ elim s'' [ [] ↦ three_bytes a b c | d ∷ _ ↦ four_bytes a b c d ]
  ]
]

-- `utf8.EncodeRune`
unfoldable pub encode : ℕ → Text
encode r =
    if ltb r 0x80
    then r ∷ []
    else if ltb r 0x800
    then (0xC0 + r / 64) ∷ (0x80 + r % 64) ∷ []
    else if ltb r 0x10000
    then (0xE0 + r / 4096) ∷ (0x80 + r / 64 % 64) ∷ (0x80 + r % 64) ∷ []
    else (0xF0 + r / 262144) ∷ (0x80 + r / 4096 % 64) ∷ (0x80 + r / 64 % 64) ∷ (0x80 + r % 64) ∷ []

-- The last `width` digits in hexadecimal, in small letters.
unfoldable pub small_hex : ℕ → ℕ → Text
small_hex zero n = []
small_hex (suc width) n =
    let d = n % 16 in small_hex width (n / 16) ++ ((if ltb d 10 then 48 + d else 87 + d) ∷ [])

-- The letter of a control character's short escape, 0 where it has none.
unfoldable pub short_escape : ℕ → ℕ
short_escape r =
    if r == 7
    then b'a'
    else if r == 8
    then b'b'
    else if r == 12
    then b'f'
    else if r == 10
    then b'n'
    else if r == 13
    then b'r'
    else if r == 9
    then b't'
    else if r == 11
    then b'v'
    else 0

-- A rune that is not printed.
unfoldable pub escape_rune : ℕ → Text
unfolding small_hex short_escape
escape_rune r =
    if ltb 0 (short_escape r)
    then 92 ∷ short_escape r ∷ []
    else if ltb r 0x20
    then 92 ∷ b'x' ∷ small_hex 2 r
    else if ltb r 0x10000
    then 92 ∷ b'u' ∷ small_hex 4 r
    else 92 ∷ b'U' ∷ small_hex 8 r

abbrev pub width_of : Decoded → ℕ
width_of (rune r width) = width
width_of (bad_byte b) = 1

-- `unicode.IsPrint` on the runes that are not ASCII is the parameter.
module _ (is_print : ℕ → Bool) where
  abbrev pub prints : ℕ → Bool
  prints r = if ltb r 0x80 then leb 0x20 r && leb r 0x7E else is_print r

  unfoldable pub quote_rune : ℕ → Text
  unfolding encode escape_rune
  quote_rune r =
      if r == b'"' || r == 92 then 92 ∷ r ∷ [] else if prints r then encode r else escape_rune r

  abbrev pub quote_piece : Decoded → Text
  quote_piece (rune r width) = quote_rune r
  quote_piece (bad_byte b) = 92 ∷ b'x' ∷ small_hex 2 b

  -- The text between the quotes; the first `k` bytes belong to a rune that is written already.
  unfoldable pub quote_from : ℕ → Text → Text
  unfolding quote_rune decode
  quote_from k [] = []
  quote_from (suc k) (c ∷ s) = quote_from k s
  quote_from zero (c ∷ s) =
      let d = decode c s in let rest = quote_from (width_of d - 1) s in quote_piece d ++ rest

  -- `strconv.Quote(s)`
  unfoldable pub quote : Text → Text
  unfolding quote_from
  quote s = b'"' ∷ (quote_from 0 s ++ (b'"' ∷ []))
