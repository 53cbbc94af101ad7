-- ===== src/History.antt =====
-- The event history of a hub (ws/hub.go): the ring of container/ring with its start and end marks,
-- the loops of NewHub and Run that write to it, and GetHistory.
pub mod Window
pub mod Reads
use lightspeed_chat.Base.{
  ℕ, zero, suc, ℤ, pos, negsuc, Option, none, some, List, [], ◌∷◌, length, get_elem?, set,
  replicate, ◌==◌, if◌then◌else◌,
}

-- A ring of cells and the positions of the two marks. A cell of a new ring holds nil.
pub record Ring (A : Type 0) : Type 0 where
  pub cells : List (Option A)
  pub start : ℕ
  pub end : ℕ

-- `position.Next()` in a ring of `n` cells.
abbrev pub next : ℕ → ℕ → ℕ
next n i = if suc i == n then 0 else suc i

-- The number of cells for a configured history_size.
unfoldable pub history_size : ℤ → ℕ
history_size (pos zero) = 100
history_size (pos (suc n)) = suc n
history_size (negsuc n) = 100

module _ {A : Type 0} where
  -- `ring.New(n)`, with both marks at the same cell.
  unfoldable pub new : ℕ → Ring A
  new n = record { cells = replicate n none; start = 0; end = 0 }

  -- The body of the loops that add an event.
  unfoldable pub put : Ring A → A → Ring A
  put r event =
      let n = length r.cells in
      let end' = next n r.end in
      record {
        cells = set r.cells r.end (some event);
        start = if end' == r.start then next n r.start else r.start;
        end = end';
      }

  -- `for _, event := range events`
  unfoldable pub store : Ring A → List A → Ring A
  store r [] = r
  store r (event ∷ events) = store (put r event) events

  abbrev pub cons_some : A → Option (List A) → Option (List A)
  cons_some e none = none
  cons_some e (some es) = some (e ∷ es)

  -- The loop of GetHistory, with fuel. `none` is the failed type assertion on an empty cell, or the
  -- end of the fuel.
  unfoldable pub read : ℕ → Ring A → ℕ → Option (List A)
  read zero r current = none
  read (suc fuel) r current =
      let rest = read fuel r (next (length r.cells) current) in
      let here = elim (get_elem? r.cells current) as (λ _. Option (List A)) [
        | none ↦ none
        | some c ↦ elim c [ none ↦ none | some e ↦ cons_some e rest ]
      ] in
      if current == r.end then some [] else here

  -- A round of the loop reads one cell, so as many rounds as cells are enough.
  unfoldable pub get_history : Ring A → Option (List A)
  get_history r = read (length r.cells) r r.start

  -- What the persister's GetEventHistory returns is put in the new ring, in its order. Without a
  -- persister the ring is new. `size` is the configured history_size.
  unfoldable pub load : ℤ → Option (ℕ → List A) → Ring A
  load size none = new (history_size size)
  load size (some persisted) = store (new (history_size size)) (persisted (history_size size))
