-- ===== src/Strconv/RoundTrip.antt =====
-- ParseInt reads back what FormatInt prints.
use lightspeed_chat.Base.{
  ℕ, zero, suc, ◌+◌, ◌-◌, ◌*◌, ◌/◌, ◌%◌, ◌^◌, ◌<◌, ◌≤◌, ◌≡◌, refl, ◌∙◌, ℤ, pos, negsuc, Text, true,
  false, [], ◌∷◌, ◌++◌, ltb, arith, Bool-cases, inl, inr,
}
use lightspeed_chat.Strconv.{
  Round, next, bad_digit, overflow, max_uint, read_digit, Parsed, value, syntax, range,
  parse_digits, base_prefix, base_after_zero, has_underscore, parse_uint, signed, parse_int,
  decimal, format_int,
}

abbrev after : Round → (ℕ → Parsed) → Parsed
after r f = elim r [ next k ↦ f k | bad_digit ↦ syntax | overflow ↦ range ]

parse_digits-append :
    (base n m d : ℕ) (s : Text)
    → parse_digits base n s ≡ value m
    → parse_digits base n (s ++ (d ∷ [])) ≡ parse_digits base m (d ∷ [])
unfolding parse_digits
parse_digits-append base n m d [] h = ground arith
parse_digits-append base n m d (c ∷ s) h =
    go (λ k. parse_digits-append base k m d s) (read_digit base n c) h
  where
    go :
        ((k : ℕ)
          → parse_digits base k s ≡ value m
          → parse_digits base k (s ++ (d ∷ [])) ≡ parse_digits base m (d ∷ []))
        → (r : Round) → after r (λ k. parse_digits base k s) ≡ value m
        → after r (λ k. parse_digits base k (s ++ (d ∷ []))) ≡ parse_digits base m (d ∷ [])
    go ih (next k) q = ih k q
    go ih bad_digit q = cc
    go ih overflow q = cc

-- A last decimal digit.
parse_digits-digit :
    (m d n : ℕ)
    → m * 10 + d ≡ n
    → d < 10
    → n ≤ max_uint
    → parse_digits 10 m ((48 + d) ∷ []) ≡ value n
unfolding parse_digits
parse_digits-digit m d n e h le = ground arith

parse_digits-decimal :
    (fuel n : ℕ) → n < fuel → n ≤ max_uint → parse_digits 10 0 (decimal fuel n) ≡ value n
unfolding decimal
parse_digits-decimal zero n h le = elim h [ ]
parse_digits-decimal (suc fuel) n h le = elim (Bool-cases (ltb n 10)) [
  | inl small ↦ rw small (parse_digits-digit 0 n n (omega arith) (ground arith) (omega arith))
  | inr large ↦ rw large (
      parse_digits-append 10 0 (n / 10) (48 + n % 10) (decimal fuel (n / 10))
        (parse_digits-decimal fuel (n / 10) (ground arith) (omega arith))
      ∙ parse_digits-digit (n / 10) (n % 10) n (omega arith) (omega arith) le)
]

has_underscore-append :
    (s : Text) (d : ℕ)
    → d < 10
    → has_underscore s ≡ false
    → has_underscore (s ++ ((48 + d) ∷ [])) ≡ false
unfolding has_underscore
has_underscore-append [] d h q = ground arith
has_underscore-append (c ∷ s) d h q = ground (arith, has_underscore-append s d h)

has_underscore-decimal : (fuel n : ℕ) → has_underscore (decimal fuel n) ≡ false
unfolding has_underscore decimal
has_underscore-decimal zero n = refl
has_underscore-decimal (suc fuel) n = elim (Bool-cases (ltb n 10)) [
  | inl small ↦ rw small (ground arith)
  | inr large ↦ rw large (
      has_underscore-append (decimal fuel (n / 10)) (n % 10) (omega arith)
        (has_underscore-decimal fuel (n / 10)))
]

-- The digits of a positive number start with a digit from 1 to 9.
decimal-front :
    (fuel n : ℕ)
    → 0 < n
    → n < fuel
    → (d : ℕ) × (rest : Text) × (decimal fuel n ≡ (48 + d) ∷ rest) × (0 < d) × (d < 10)
unfolding decimal
decimal-front zero n p h = elim h [ ]
decimal-front (suc fuel) n p h = elim (Bool-cases (ltb n 10)) [
  | inl small ↦ (n, [], rw small, p, ground arith)
  | inr large ↦
      let (d, rest, e, lo, hi) = decimal-front fuel (n / 10) (ground arith) (ground arith) in
      (d, rest ++ ((48 + n % 10) ∷ []), rw (large, e) refl, lo, hi)
]

parse_uint-digits :
    (d : ℕ) (rest : Text) (n : ℕ)
    → 0 < d
    → d < 10
    → parse_digits 10 0 ((48 + d) ∷ rest) ≡ value n
    → has_underscore ((48 + d) ∷ rest) ≡ false
    → parse_uint ((48 + d) ∷ rest) ≡ value n
unfolding parse_uint base_prefix
parse_uint-digits d rest n lo hi q u = ground arith

parse_uint-decimal : (n : ℕ) → n ≤ max_uint → parse_uint (decimal (suc n) n) ≡ value n
parse_uint-decimal zero le =
    unfold parse_uint decimal base_prefix base_after_zero parse_digits has_underscore in refl
parse_uint-decimal (suc n) le =
    let (d, rest, e, lo, hi) = decimal-front (suc (suc n)) (suc n) (omega arith) (omega arith) in
    rw e (
      parse_uint-digits d rest (suc n) lo hi
        (rw e at (parse_digits-decimal (suc (suc n)) (suc n) (omega arith) le))
        (rw e at (has_underscore-decimal (suc (suc n)) (suc n))))

parse_int-digits :
    (d : ℕ) (rest : Text) (n : ℕ)
    → d < 10
    → parse_uint ((48 + d) ∷ rest) ≡ value n
    → parse_int ((48 + d) ∷ rest) ≡ signed false (value n)
unfolding parse_int
parse_int-digits d rest n hi q = ground arith

parse_int-decimal : (n : ℕ) → n ≤ max_uint → parse_int (decimal (suc n) n) ≡ signed false (value n)
parse_int-decimal zero le =
    unfold parse_int parse_uint decimal base_prefix base_after_zero parse_digits has_underscore in
    refl
parse_int-decimal (suc n) le =
    let (d, rest, e, lo, hi) = decimal-front (suc (suc n)) (suc n) (omega arith) (omega arith) in
    rw e (parse_int-digits d rest (suc n) hi (rw e at (parse_uint-decimal (suc n) le)))

abbrev pub InRange : ℤ → Type 0
InRange (pos n) = n < 2 ^ 63
InRange (negsuc n) = n < 2 ^ 63

-- For every integer of 64 bits, ParseInt at base 0 reads what FormatInt prints, with no error.
pub parse_int-format_int : (v : ℤ) → InRange v → parse_int (format_int v) ≡ (v, true)
unfolding format_int
parse_int-format_int (pos n) h =
    rw (parse_int-decimal n (omega arith)) (unfold signed in ground arith)
parse_int-format_int (negsuc n) h =
    unfold parse_int in
    rw (parse_uint-decimal (suc n) (omega arith)) (unfold signed in ground arith)

-- A decimal of 64 bits without a sign that does not fit into 63 bits is read as the largest integer.
pub parse_int-large :
    (n : ℕ) → 2 ^ 63 ≤ n → n ≤ max_uint → parse_int (format_int (pos n)) ≡ (pos (2 ^ 63 - 1), false)
unfolding format_int
parse_int-large n h le = rw (parse_int-decimal n le) (unfold signed in ground arith)
