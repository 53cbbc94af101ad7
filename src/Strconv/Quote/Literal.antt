-- ===== src/Strconv/Quote/Literal.antt =====
-- A quoted text is one string literal, whatever the text holds.
use lightspeed_chat.Base.{
  ℕ, zero, suc, ◌≡◌, ◌≢◌, ◌⊎◌, ◌-◌, ◌/◌, inl, inr, refl, ◌∙◌, Text, Bool, true, false, Option, none,
  some, [], ◌∷◌, ◌++◌, ◌==◌, ◌||◌, ltb, Bool-cases, if◌then◌else◌, All, All-append, arith,
  append_assoc,
}
use lightspeed_chat.Strconv.Quote.{
  prints, Decoded, rune, bad_byte, decode, encode, small_hex, short_escape, escape_rune, quote_rune,
  quote_piece, width_of, quote_from, quote,
}

-- The reader of a literal in double quotes, behind the opening quote: what follows the closing one.
unfoldable pub literal_end : Bool → Text → Option Text
literal_end escaped [] = none
literal_end true (c ∷ s) = literal_end false s
literal_end false (c ∷ s) =
    let within = literal_end false s in
    let behind = literal_end true s in
    if c == b'"' then some s else if c == 92 then behind else within

abbrev pub IsPlain : ℕ → Type 0
IsPlain c = (c ≢ b'"') × (c ≢ 92)

-- A piece that the reader passes over: plain bytes, or an escape and plain bytes.
abbrev IsPiece : Text → Type 0
IsPiece piece =
    All IsPlain piece ⊎ ((c : ℕ) × (rest : Text) × (piece ≡ 92 ∷ c ∷ rest) × All IsPlain rest)

plain_lem :
    (piece s : Text) → All IsPlain piece → literal_end false (piece ++ s) ≡ literal_end false s
unfolding literal_end
plain_lem [] s h = refl
plain_lem (c ∷ piece) s h = ground (arith, h, plain_lem piece s h.1)

piece_lem : (piece s : Text) → IsPiece piece → literal_end false (piece ++ s) ≡ literal_end false s
unfolding literal_end
piece_lem piece s (inl h) = plain_lem piece s h
piece_lem piece s (inr (c, rest, e, h)) = rw e (plain_lem rest s h)

small_hex-IsPlain : (width n : ℕ) → All IsPlain (small_hex width n)
unfolding small_hex
small_hex-IsPlain zero n = tt
small_hex-IsPlain (suc width) n =
    All-append IsPlain (small_hex width (n / 16)) _ (small_hex-IsPlain width (n / 16))
      (ground arith)

encode-IsPlain : (r : ℕ) → r ≢ b'"' → r ≢ 92 → All IsPlain (encode r)
unfolding encode
encode-IsPlain r h k = ground (arith, h, k)

escape_rune-IsPiece : (r : ℕ) → IsPiece (escape_rune r)
unfolding escape_rune
escape_rune-IsPiece r = elim (Bool-cases (ltb 0 (short_escape r))) [
  | inl short ↦ inr (short_escape r, [], ground (arith, short), tt)
  | inr long ↦ elim (Bool-cases (ltb r 0x20)) [
    | inl control ↦ inr (b'x', small_hex 2 r, ground (arith, long, control), small_hex-IsPlain 2 r)
    | inr other ↦ elim (Bool-cases (ltb r 0x10000)) [
      | inl basic ↦
          inr (b'u', small_hex 4 r, ground (arith, long, other, basic), small_hex-IsPlain 4 r)
      | inr high ↦
          inr (b'U', small_hex 8 r, ground (arith, long, other, high), small_hex-IsPlain 8 r)
    ]
  ]
]

quote_rune-IsPiece : (is_print : ℕ → Bool) (r : ℕ) → IsPiece (quote_rune is_print r)
unfolding quote_rune
quote_rune-IsPiece is_print r = elim (Bool-cases (r == b'"' || r == 92)) [
  | inl special ↦ inr (r, [], ground (arith, special), tt)
  | inr ordinary ↦ elim (Bool-cases (prints is_print r)) [
    | inl printed ↦ inl (
        rw (ordinary, printed)
          (encode-IsPlain r (ground (arith, ordinary)) (ground (arith, ordinary))))
    | inr hidden ↦ rw (ordinary, hidden) (escape_rune-IsPiece r)
  ]
]

quote_piece-IsPiece : (is_print : ℕ → Bool) (d : Decoded) → IsPiece (quote_piece is_print d)
quote_piece-IsPiece is_print (rune r width) = quote_rune-IsPiece is_print r
quote_piece-IsPiece is_print (bad_byte b) = inr (b'x', small_hex 2 b, refl, small_hex-IsPlain 2 b)

quote_from_lem :
    (is_print : ℕ → Bool) (k : ℕ) (s rest : Text)
    → literal_end false (quote_from is_print k s ++ (b'"' ∷ rest)) ≡ some rest
unfolding quote_from literal_end
quote_from_lem is_print k [] rest = refl
quote_from_lem is_print (suc k) (c ∷ s) rest = quote_from_lem is_print k s rest
quote_from_lem is_print zero (c ∷ s) rest =
    rw (append_assoc (quote_piece is_print (decode c s)) _ (b'"' ∷ rest)) (
      piece_lem (quote_piece is_print (decode c s)) _ (quote_piece-IsPiece is_print (decode c s))
      ∙ quote_from_lem is_print (width_of (decode c s) - 1) s rest)

-- Whatever bytes a text holds, its quoted form is read as one literal that ends where Quote ends: a
-- nick or an identity cannot close the literal it stands in.
pub quote_lem :
    (is_print : ℕ → Bool) (s rest : Text)
    → (body : Text) × (quote is_print s ≡ b'"' ∷ body)
      × (literal_end false (body ++ rest) ≡ some rest)
unfolding quote
quote_lem is_print s rest = (
  quote_from is_print 0 s ++ (b'"' ∷ []),
  refl,
  rw (append_assoc (quote_from is_print 0 s) (b'"' ∷ []) rest) (quote_from_lem is_print 0 s rest),
)
