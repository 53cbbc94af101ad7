-- ===== src/History/Window.antt =====
-- The ring holds the last events, one fewer than it has cells.
use native.Mathlib.Decide.{dec_le}
use lightspeed_chat.Base.{
  ℕ, zero, suc, ◌+◌, ◌-◌, ◌<◌, ◌≤◌, ◌≡◌, refl, ap, ◌⊎◌, inl, inr, some, List, [], ◌∷◌, ◌++◌, length,
  length-append, length-set, length-drop, drop, get_elem?, get_elem?-set_self, get_elem?-set_ne,
  set, ltb, if◌then◌else◌, arith,
}
use lightspeed_chat.History.{Ring, put}

-- The cell `i` steps from the first cell, in a ring of `n` cells, for `i` below `2 n`.
abbrev pub wrap : ℕ → ℕ → ℕ
wrap n i = if ltb i n then i else i - n

module _ {A : Type 0} where
  -- The last `n - 1` elements, all of them if there are fewer.
  abbrev pub keep : ℕ → List A → List A
  keep n xs = drop (suc (length xs) - n) xs

  -- The cells from the start mark on hold `xs`, in order, up to the end mark.
  pub record Represents (r : Ring A) (xs : List A) : Type 0 where
    pub short : length xs < length r.cells
    pub start_within : r.start < length r.cells
    pub end_at : r.end ≡ wrap (length r.cells) (r.start + length xs)
    pub at :
        (k : ℕ) (x : A)
        → get_elem? xs k ≡ some x
        → get_elem? r.cells (wrap (length r.cells) (r.start + k)) ≡ some (some x)

  pub get_elem?-lt : (xs : List A) (k : ℕ) (x : A) → get_elem? xs k ≡ some x → k < length xs
  get_elem?-lt [] k x h = cc
  get_elem?-lt (y ∷ xs) zero x h = omega arith
  get_elem?-lt (y ∷ xs) (suc k) x h = omega (arith, get_elem?-lt xs k x h)

  get_elem?-snoc :
      (xs : List A) (e : A) (k : ℕ) (x : A)
      → get_elem? (xs ++ (e ∷ [])) k ≡ some x
      → (get_elem? xs k ≡ some x) ⊎ ((k ≡ length xs) × (e ≡ x))
  get_elem?-snoc [] e zero x h = inr (refl, cc)
  get_elem?-snoc [] e (suc k) x h = cc
  get_elem?-snoc (y ∷ xs) e zero x h = inl h
  get_elem?-snoc (y ∷ xs) e (suc k) x h = elim (get_elem?-snoc xs e k x h) [
    | inl old ↦ inl old
    | inr (p, q) ↦ inr (ap suc p, q)
  ]

  get_elem?-drop_one : (xs : List A) (k : ℕ) → get_elem? (drop 1 xs) k ≡ get_elem? xs (suc k)
  get_elem?-drop_one [] k = refl
  get_elem?-drop_one (x ∷ xs) k = refl

module _ {A : Type 0} (r : Ring A) (xs : List A) (e : A) (h : Represents r xs) where
  put_at :
      (k : ℕ) (x : A)
      → get_elem? (xs ++ (e ∷ [])) k ≡ some x
      → get_elem? (set r.cells r.end (some e)) (wrap (length r.cells) (r.start + k)) ≡ some (some x)
  put_at k x q = elim (get_elem?-snoc xs e k x q) [
    | inl old ↦ ground (
      arith,
      h.short,
      h.start_within,
      h.end_at,
      get_elem?-lt xs k x old,
      h.at k x old,
      get_elem?-set_ne r.cells r.end (wrap (length r.cells) (r.start + k)) (some e),
    )
    | inr (p, same) ↦
        ground (arith, h.short, h.start_within, h.end_at, get_elem?-set_self r.cells r.end (some e))
  ]

  grown : length (xs ++ (e ∷ [])) ≡ suc (length xs)
  grown = omega (arith, length-append xs (e ∷ []))

  keep_room :
      suc (suc (length xs)) ≤ length r.cells
      → keep (length r.cells) (xs ++ (e ∷ [])) ≡ xs ++ (e ∷ [])
  keep_room room =
      let none_goes : suc (length (xs ++ (e ∷ []))) - length r.cells ≡ 0 = omega (arith, grown) in
      ap (λ n. drop n (xs ++ (e ∷ []))) none_goes

  keep_full :
      ¬ (suc (suc (length xs)) ≤ length r.cells)
      → keep (length r.cells) (xs ++ (e ∷ [])) ≡ drop 1 (xs ++ (e ∷ []))
  keep_full full =
      let one_goes : suc (length (xs ++ (e ∷ []))) - length r.cells ≡ 1 =
        omega (arith, grown, h.short) in
      ap (λ n. drop n (xs ++ (e ∷ []))) one_goes

  -- There is a free cell beside the end mark: the new event is the last.
  put_room : suc (suc (length xs)) ≤ length r.cells → Represents (put r e) (xs ++ (e ∷ []))
  unfolding put
  put_room room = record {
    short = ground (arith, h.short, grown, length-set r.cells r.end (some e));
    start_within =
        ground (arith, h.short, h.start_within, h.end_at, length-set r.cells r.end (some e));
    end_at =
        ground (arith, h.short, h.start_within, h.end_at, grown, length-set r.cells r.end (some e));
    at = λ k x q.
        ground (
          arith,
          h.short,
          h.start_within,
          h.end_at,
          length-set r.cells r.end (some e),
          put_at k x q,
        );
  }

  -- The end mark has caught up with the start mark: the oldest event goes.
  put_full : suc (length xs) ≡ length r.cells → Represents (put r e) (drop 1 (xs ++ (e ∷ [])))
  unfolding put
  put_full full = record {
    short =
        ground (arith, grown, length-set r.cells r.end (some e), length-drop 1 (xs ++ (e ∷ [])));
    start_within =
        ground (arith, h.short, h.start_within, h.end_at, length-set r.cells r.end (some e));
    end_at = ground (
      arith,
      h.short,
      h.start_within,
      h.end_at,
      grown,
      length-set r.cells r.end (some e),
      length-drop 1 (xs ++ (e ∷ [])),
    );
    at = λ k x q. ground (
      arith,
      h.short,
      h.start_within,
      h.end_at,
      length-set r.cells r.end (some e),
      get_elem?-drop_one (xs ++ (e ∷ [])) k,
      put_at (suc k) x,
      get_elem?-lt (drop 1 (xs ++ (e ∷ []))) k x q,
      length-drop 1 (xs ++ (e ∷ [])),
      grown,
    );
  }

  pub put-Represents : Represents (put r e) (keep (length r.cells) (xs ++ (e ∷ [])))
  put-Represents = elim (dec_le (suc (suc (length xs))) (length r.cells)) [
    | yes room ↦ rw (keep_room room) (put_room room)
    | no full ↦ rw (keep_full full) (put_full (omega (arith, h.short)))
  ]
