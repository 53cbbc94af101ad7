-- ===== src/History/Reads.antt =====
-- What GetHistory returns after any number of batches (ws/hub.go: NewHub, Run, GetHistory).
use mathlib.Core.List.{flatten}
use mathlib.Core.Path.{subst}
use lightspeed_chat.Base.{
  ℕ, zero, suc, ◌+◌, ◌-◌, ◌<◌, ◌≡◌, refl, ◌∙◌, ap, ℤ, pos, negsuc, Option, none, some, List, [],
  ◌∷◌, ◌++◌, append_assoc, append-nil, length, length-append, length-set, length-replicate,
  length-drop, drop, drop-append_le, get_elem?, arith,
}
use lightspeed_chat.History.{Ring, new, put, store, read, get_history, history_size, load}
use lightspeed_chat.History.Window.{keep, wrap, Represents, put-Represents}

module _ {A : Type 0} where
  get_elem?-none : (xs : List A) (k : ℕ) → k < length xs → (x : A) × (get_elem? xs k ≡ some x)
  get_elem?-none [] k h = elim h [ ]
  get_elem?-none (x ∷ xs) zero h = (x, refl)
  get_elem?-none (x ∷ xs) (suc k) h = get_elem?-none xs k (omega arith)

  drop-cons :
      (xs : List A) (k : ℕ) (x : A) → get_elem? xs k ≡ some x → drop k xs ≡ x ∷ drop (suc k) xs
  drop-cons [] k x h = cc
  drop-cons (y ∷ xs) zero x h = cc
  drop-cons (y ∷ xs) (suc k) x h = drop-cons xs k x h

  drop-length : (xs : List A) → drop (length xs) xs ≡ []
  drop-length [] = refl
  drop-length (x ∷ xs) = drop-length xs

module _ {A : Type 0} (r : Ring A) (xs : List A) (h : Represents r xs) where
  -- With `m` events to go and more fuel than that, the loop returns those events.
  read_lem :
      (m k fuel : ℕ)
      → k + m ≡ length xs
      → m < fuel
      → read fuel r (wrap (length r.cells) (r.start + k)) ≡ some (drop k xs)
  unfolding read
  read_lem m k zero e f = absurd (omega arith)
  read_lem zero k (suc fuel) e f =
      let last : k ≡ length xs = omega arith in ground (arith, h.end_at, last, drop-length xs)
  read_lem (suc m) k (suc fuel) e f =
      let (x, q) = get_elem?-none xs k (omega arith) in
      ground (
        arith,
        h.short,
        h.start_within,
        h.end_at,
        q,
        h.at k x q,
        drop-cons xs k x q,
        read_lem m (suc k) fuel,
      )

  -- The loop of GetHistory ends, meets no empty cell, and returns what the ring represents.
  pub get_history-Represents : get_history r ≡ some xs
  unfolding get_history
  get_history-Represents =
      ground (arith, h.short, h.start_within, read_lem (length xs) 0 (length r.cells))

module _ {A : Type 0} where
  drop-nil : (n : ℕ) → drop {A = A} n [] ≡ []
  drop-nil zero = refl
  drop-nil (suc n) = refl

  drop-drop : (m n : ℕ) (xs : List A) → drop m (drop n xs) ≡ drop (n + m) xs
  drop-drop m zero xs = ap (λ k. drop k xs) (omega arith)
  drop-drop m (suc n) [] = cc (drop-nil m, drop-nil (suc n + m))
  drop-drop m (suc n) (x ∷ xs) =
      let one_more : suc n + m ≡ suc (n + m) = omega arith in rw one_more (drop-drop m n xs)

  -- Dropping twice drops as many as dropping once from the whole.
  keep_count :
      (n : ℕ) (xs ys : List A)
      → 0 < n
      → suc (length xs) - n + (suc (length (drop (suc (length xs) - n) (xs ++ ys))) - n)
        ≡ suc (length (xs ++ ys)) - n
  keep_count n xs ys h =
      omega (arith, length-drop (suc (length xs) - n) (xs ++ ys), length-append xs ys)

  pub keep-keep-append :
      (n : ℕ) (xs ys : List A) → 0 < n → keep n (keep n xs ++ ys) ≡ keep n (xs ++ ys)
  keep-keep-append n xs ys h =
      rw (← drop-append_le (suc (length xs) - n) xs ys (omega arith))
        (rw drop-drop (ap (λ k. drop k (xs ++ ys)) (keep_count n xs ys h)))

  cells-put : (r : Ring A) (e : A) → length (put r e).cells ≡ length r.cells
  unfolding put
  cells-put r e = length-set r.cells r.end (some e)

  cells-store : (r : Ring A) (es : List A) → length (store r es).cells ≡ length r.cells
  unfolding store
  cells-store r [] = refl
  cells-store r (e ∷ es) = cells-store (put r e) es ∙ cells-put r e

  pub store-Represents :
      (r : Ring A) (xs es : List A)
      → Represents r xs
      → Represents (store r es) (keep (length r.cells) (xs ++ es))
  unfolding store
  store-Represents r xs [] h = rw append-nil (
      let none_goes : suc (length xs) - length r.cells ≡ 0 = omega (arith, h.short) in
      rw none_goes h)
  store-Represents r xs (e ∷ es) h =
      let first = put-Represents r xs e h in
      let rest = store-Represents (put r e) (keep (length r.cells) (xs ++ (e ∷ []))) es first in
      let same_window =
        keep-keep-append (length r.cells) (xs ++ (e ∷ [])) es (omega (arith, h.short))
        ∙ ap (keep (length r.cells)) (append_assoc xs (e ∷ []) es) in
      subst (Represents (store (put r e) es)) same_window (
        subst
          (λ n.
            Represents (store (put r e) es) (keep n (keep (length r.cells) (xs ++ (e ∷ [])) ++ es)))
          (cells-put r e) rest)

  new-Represents : (n : ℕ) → 0 < n → Represents (new {A = A} n) []
  unfolding new
  new-Represents n h = record {
    short = omega (arith, length-replicate {A = Option A} n none);
    start_within = omega (arith, length-replicate {A = Option A} n none);
    end_at = ground (arith, length-replicate {A = Option A} n none);
    at = λ k x q. cc;
  }

  store-keep :
      (n : ℕ) (r : Ring A) (xs es : List A)
      → length r.cells ≡ n
      → Represents r (keep n xs)
      → Represents (store r es) (keep n (xs ++ es))
  store-keep n r xs es c h =
      subst (Represents (store r es)) (keep-keep-append n xs es (omega (arith, c, h.short))) (
        subst (λ k. Represents (store r es) (keep k (keep n xs ++ es))) c
          (store-Represents r (keep n xs) es h))

  new-keep : (n : ℕ) → 0 < n → Represents (new {A = A} n) (keep n [])
  new-keep n h = rw (drop-nil (1 - n)) (new-Represents n h)

  -- The batches that Run receives on EventHistory, one after the other.
  abbrev pub store_all : Ring A → List (List A) → Ring A
  store_all r [] = r
  store_all r (batch ∷ batches) = store_all (store r batch) batches

  store_all-Represents :
      (n : ℕ) (r : Ring A) (xs : List A) (batches : List (List A))
      → length r.cells ≡ n
      → Represents r (keep n xs)
      → Represents (store_all r batches) (keep n (xs ++ flatten batches))
  unfolding flatten
  store_all-Represents n r xs [] c h = rw append-nil h
  store_all-Represents n r xs (batch ∷ batches) c h =
      rw (← append_assoc xs batch (flatten batches)) (
        store_all-Represents n (store r batch) (xs ++ batch) batches (cells-store r batch ∙ c)
          (store-keep n r xs batch c h))

cells-new : (A : Type 0) (n : ℕ) → length (new {A = A} n).cells ≡ n
unfolding new
cells-new A n = length-replicate {A = Option A} n none

history_size-pos : (size : ℤ) → 0 < history_size size
unfolding history_size
history_size-pos (pos zero) = omega arith
history_size-pos (pos (suc n)) = omega arith
history_size-pos (negsuc n) = omega arith

abbrev pub persisted_events : {A : Type 0} → ℤ → Option (ℕ → List A) → List A
persisted_events size none = []
persisted_events size (some persisted) = persisted (history_size size)

module _ {A : Type 0} where
  load-Represents :
      (size : ℤ) (persister : Option (ℕ → List A))
      → Represents
          (load size persister)
          (keep (history_size size) (persisted_events size persister))
  unfolding load
  load-Represents size none = new-keep (history_size size) (history_size-pos size)
  load-Represents size (some persisted) =
      store-keep _ (new (history_size size)) [] (persisted (history_size size))
        (cells-new _ (history_size size)) (new-keep (history_size size) (history_size-pos size))

  cells-load :
      (size : ℤ) (persister : Option (ℕ → List A))
      → length (load size persister).cells ≡ history_size size
  unfolding load
  cells-load size none = cells-new _ (history_size size)
  cells-load size (some persisted) =
      cells-store (new (history_size size)) _ ∙ cells-new _ (history_size size)

  -- For every history size and persister: after the hub has loaded the persisted events and then
  -- received any batches, GetHistory returns, without meeting an empty cell, the last
  -- `history_size - 1` of the persisted events followed by the received ones, in that order.
  pub get_history-load :
      (size : ℤ) (persister : Option (ℕ → List A)) (batches : List (List A))
      → get_history (store_all (load size persister) batches)
        ≡ some (keep (history_size size) (persisted_events size persister ++ flatten batches))
  get_history-load size persister batches = get_history-Represents _ _ (
      store_all-Represents (history_size size) (load size persister) _ batches
        (cells-load size persister) (load-Represents size persister))
