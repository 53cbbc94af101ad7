-- ===== src/Strconv.antt =====
-- Package strconv as the code uses it: ParseInt(s, 0, 64) and FormatInt(v, 10).
pub mod RoundTrip
pub mod Quote
use lightspeed_chat.Base.{
  ℕ, zero, suc, ◌+◌, ◌-◌, ◌*◌, ◌/◌, ◌%◌, ◌^◌, ℤ, pos, negsuc, Text, Bool, true, false, ◌&&◌, ◌||◌,
  not, Option, none, some, List, [], ◌∷◌, ◌++◌, ltb, leb, ◌==◌, String, codes, text_eq,
  if◌then◌else◌,
}

abbrev pub max_uint : ℕ
max_uint = 2 ^ 64 - 1

-- The value of a digit or a letter of either case.
unfoldable pub digit : ℕ → Option ℕ
digit c =
    if leb 48 c && leb c 57
    then some (c - 48)
    else if leb 97 c && leb c 122
    then some (c - 97 + 10)
    else if leb 65 c && leb c 90
    then some (c - 65 + 10)
    else none

-- What ParseUint returns: a value, `ErrSyntax` with 0, or `ErrRange` with the largest value.
pub data Parsed : Type 0 where
  value : ℕ → Parsed
  syntax range : Parsed

-- A round of the loop of ParseUint at base 0: the next value, or the early return. Underscores are
-- passed over.
pub data Round : Type 0 where
  next : ℕ → Round
  bad_digit overflow : Round

abbrev add_digit : ℕ → ℕ → ℕ → Round
add_digit base n d =
    if leb base d
    then bad_digit
    else if ltb max_uint (n * base + d)
    then overflow
    else next (n * base + d)

unfoldable pub read_digit : ℕ → ℕ → ℕ → Round
unfolding digit
read_digit base n c =
    if c == b'_'
    then next n
    else elim (digit c) as (λ _. Round) [ none ↦ bad_digit | some d ↦ add_digit base n d ]

unfoldable pub parse_digits : ℕ → ℕ → Text → Parsed
unfolding read_digit
parse_digits base n [] = value n
parse_digits base n (c ∷ s) = elim (read_digit base n c) [
  | next m ↦ parse_digits base m s
  | bad_digit ↦ syntax
  | overflow ↦ range
]

-- The letter `l` in either case.
abbrev is_letter : ℕ → ℕ → Bool
is_letter l c = c == l || c + 32 == l

-- The base by the prefix, and the text behind the prefix.
unfoldable pub base_after_zero : Text → ℕ × Text
base_after_zero [] = (8, [])
base_after_zero (p ∷ []) = (8, p ∷ [])
base_after_zero (p ∷ c ∷ s) =
    if is_letter b'b' p
    then (2, c ∷ s)
    else if is_letter b'o' p
    then (8, c ∷ s)
    else if is_letter b'x' p
    then (16, c ∷ s)
    else (8, p ∷ c ∷ s)

unfoldable pub base_prefix : Text → ℕ × Text
unfolding base_after_zero
base_prefix [] = (10, [])
base_prefix (a ∷ s) = if a == b'0' then base_after_zero s else (10, a ∷ s)

unfoldable pub has_underscore : Text → Bool
has_underscore [] = false
has_underscore (c ∷ s) = c == b'_' || has_underscore s

-- What `underscoreOK` has read last.
pub data Seen : Type 0 where
  begins digits underscore other : Seen

abbrev after_digits : Seen → Bool
after_digits digits = true
after_digits _ = false

abbrev after_underscore : Seen → Bool
after_underscore underscore = true
after_underscore _ = false

unfoldable pub underscores_from : Bool → Seen → Text → Bool
underscores_from hex seen [] = not (after_underscore seen)
underscores_from hex seen (c ∷ s) =
    let at_digit = underscores_from hex digits s in
    let at_underscore = underscores_from hex underscore s in
    let at_other = underscores_from hex other s in
    if leb 48 c && leb c 57 || hex && (leb 97 c && leb c 102 || leb 65 c && leb c 70)
    then at_digit
    else if c == b'_'
    then (if after_digits seen then at_underscore else false)
    else if after_underscore seen
    then false
    else at_other

-- `underscoreOK(s)` for a text with no sign, as ParseInt has taken the sign off.
unfoldable pub underscore_ok : Text → Bool
unfolding underscores_from
underscore_ok (z ∷ p ∷ s) =
    if z == b'0' && (is_letter b'b' p || is_letter b'o' p || is_letter b'x' p)
    then underscores_from (is_letter b'x' p) digits s
    else underscores_from false begins (z ∷ p ∷ s)
underscore_ok s = underscores_from false begins s

abbrev check_underscores : Text → Parsed → Parsed
check_underscores s (value n) =
    if has_underscore s && not (underscore_ok s) then syntax else value n
check_underscores s syntax = syntax
check_underscores s range = range

unfoldable pub parse_uint : Text → Parsed
parse_uint [] = syntax
parse_uint (c ∷ s) =
    let (base, rest) = base_prefix (c ∷ s) in check_underscores (c ∷ s) (parse_digits base 0 rest)

-- `-n`
abbrev pub negate : ℕ → ℤ
negate zero = pos 0
negate (suc n) = negsuc n

-- The value and whether the error is nil. Out of range it is the nearest value of 64 bits.
unfoldable pub signed : Bool → Parsed → ℤ × Bool
signed neg syntax = (pos 0, false)
signed true range = (negate (2 ^ 63), false)
signed false range = (pos (2 ^ 63 - 1), false)
signed true (value n) = if ltb (2 ^ 63) n then (negate (2 ^ 63), false) else (negate n, true)
signed false (value n) = if leb (2 ^ 63) n then (pos (2 ^ 63 - 1), false) else (pos n, true)

-- `strconv.ParseInt(s, 0, 64)`
unfoldable pub parse_int : Text → ℤ × Bool
parse_int [] = (pos 0, false)
parse_int (c ∷ s) =
    if c == b'+'
    then signed false (parse_uint s)
    else if c == b'-'
    then signed true (parse_uint s)
    else signed false (parse_uint (c ∷ s))

-- The decimal digits of a number below the fuel.
unfoldable pub decimal : ℕ → ℕ → Text
decimal zero n = []
decimal (suc fuel) n =
    let front = decimal fuel (n / 10) in
    if ltb n 10 then (48 + n) ∷ [] else front ++ ((48 + n % 10) ∷ [])

-- `strconv.FormatInt(v, 10)`
unfoldable pub format_int : ℤ → Text
format_int (pos n) = decimal (suc n) n
format_int (negsuc n) = b'-' ∷ decimal (suc (suc n)) (suc n)

abbrev one_of : Text → List String → Bool
one_of s [] = false
one_of s (word ∷ words) = text_eq (codes word) s || one_of s words

-- `strconv.ParseBool`
unfoldable pub parse_bool : Text → Option Bool
parse_bool s =
    if one_of s ("1" ∷ "t" ∷ "T" ∷ "true" ∷ "TRUE" ∷ "True" ∷ [])
    then some true
    else if one_of s ("0" ∷ "f" ∷ "F" ∷ "false" ∷ "FALSE" ∷ "False" ∷ [])
    then some false
    else none
