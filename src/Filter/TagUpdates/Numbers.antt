-- ===== src/Filter/TagUpdates/Numbers.antt =====
-- AsInt on numbers in decimal (filter/tags.go).
use lightspeed_chat.Base.{
  ℕ, zero, suc, ℤ, pos, Bool, true, false, Bool-cases, inl, inr, ltb, leb, ◌==◌, Text, [], ◌∷◌,
  arith, if◌then◌else◌, ◌-◌, ◌^◌, ◌≤◌, ◌≡◌, ap,
}
use lightspeed_chat.Strconv.{
  format_int, max_uint, Parsed, value, syntax, range, signed, negate, parse_int, parse_uint,
}
use lightspeed_chat.Strconv.RoundTrip.{InRange, parse_int-format_int, parse_int-large}
use lightspeed_chat.Filter.TagUpdates.{as_int}

-- AsInt reads every integer of 64 bits back from what FormatInt prints for it.
pub as_int-format_int : (v : ℤ) → InRange v → as_int (format_int v) ≡ v
unfolding as_int
as_int-format_int v h = ap (λ r. r.0) (parse_int-format_int v h)

-- AsInt reads a decimal without a sign that is too large for an int64 but not for 64 bits as the
-- largest int64, not as 0.
pub as_int-large :
    (n : ℕ) → 2 ^ 63 ≤ n → n ≤ max_uint → as_int (format_int (pos n)) ≡ pos (2 ^ 63 - 1)
unfolding as_int
as_int-large n h le = ap (λ r. r.0) (parse_int-large n h le)

negate-InRange : (n : ℕ) → n ≤ 2 ^ 63 → InRange (negate n)
negate-InRange zero h = omega arith
negate-InRange (suc n) h = omega arith

signed-InRange : (neg : Bool) (r : Parsed) → InRange (signed neg r).0
unfolding signed
signed-InRange neg syntax = omega arith
signed-InRange true range = negate-InRange (2 ^ 63) (omega arith)
signed-InRange false range = omega arith
signed-InRange true (value n) = elim (Bool-cases (ltb (2 ^ 63) n)) [
  | inl large ↦ rw large (negate-InRange (2 ^ 63) (omega arith))
  | inr small ↦ rw small (negate-InRange n (ground arith))
]
signed-InRange false (value n) = elim (Bool-cases (leb (2 ^ 63) n)) [
  | inl large ↦ rw large (omega arith)
  | inr small ↦ rw small (ground arith)
]

branch-InRange :
    (b : Bool) (x y : ℤ × Bool) → InRange x.0 → InRange y.0 → InRange (if b then x else y).0
branch-InRange true x y hx hy = hx
branch-InRange false x y hx hy = hy

-- AsInt returns an integer of 64 bits on every text.
pub as_int-InRange : (s : Text) → InRange (as_int s)
unfolding as_int parse_int
as_int-InRange [] = omega arith
as_int-InRange (c ∷ s) = branch-InRange (c == b'+') _ _ (signed-InRange false (parse_uint s)) (
    branch-InRange (c == b'-') _ _ (signed-InRange true (parse_uint s))
      (signed-InRange false (parse_uint (c ∷ s))))
