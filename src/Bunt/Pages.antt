-- ===== src/Bunt/Pages.antt =====
-- The pages of GetEventHistory (persistence/buntdb.go).
use lightspeed_chat.Base.{
  ℕ, zero, suc, ◌+◌, ◌≤◌, ◌≡◌, refl, ap, ◌∙◌, Text, codes, ◌++◌, Option, none, some, List, [], ◌∷◌,
  arith, drop, take, lookup,
}
use lightspeed_chat.Types.{Time, Room, Event, in_utc}
use lightspeed_chat.Bunt.{ok, Kv, decode_all}
use lightspeed_chat.Bunt.Rooms.{Bunt}
use lightspeed_chat.Bunt.Rfc3339.{rfc3339}
use lightspeed_chat.Bunt.Events.{from_history, page, get_event_history}

-- The part of a list that a page asks for.
abbrev pub window {ℓ} : {A : Type ℓ} → ℕ → ℕ → List A → List A
window from_idx zero xs = drop from_idx xs
window from_idx (suc n) xs = take (suc n) (drop from_idx xs)

module _ (kv : Kv) where
  abbrev pub as_history : Text → Option Event
  as_history val = elim (kv.unmarshal_event val) [
    | none ↦ none
    | some event ↦ some (from_history kv event)
  ]

  unbounded :
      (vals : List Text) (from_idx seen count : ℕ)
      → from_idx ≤ seen
      → page kv from_idx 0 seen count vals ≡ decode_all as_history vals
  unfolding page
  unbounded [] from_idx seen count h = refl
  unbounded (val ∷ vals) from_idx seen count h =
      ground (arith, h, unbounded vals from_idx (suc seen) (suc count) (omega arith))

  bounded :
      (vals : List Text) (from_idx max_count left seen count : ℕ)
      → from_idx ≤ seen
      → max_count ≡ suc left + count
      → page kv from_idx max_count seen count vals ≡ decode_all as_history (take (suc left) vals)
  unfolding page
  bounded [] from_idx max_count left seen count h e = refl
  bounded (val ∷ vals) from_idx max_count zero seen count h e = ground (arith, h, e)
  bounded (val ∷ vals) from_idx max_count (suc left) seen count h e = ground (
    arith,
    h,
    e,
    bounded vals from_idx max_count left (suc seen) (suc count) (omega arith) (omega (arith, e)),
  )

  skipping :
      (k : ℕ) (vals : List Text) (from_idx max_count seen : ℕ)
      → from_idx ≡ k + seen
      → page kv from_idx max_count seen 0 vals ≡ page kv from_idx max_count from_idx 0 (drop k vals)
  unfolding page
  skipping zero vals from_idx max_count seen e = ground (arith, e)
  skipping (suc k) [] from_idx max_count seen e = refl
  skipping (suc k) (val ∷ vals) from_idx max_count seen e =
      ground (arith, e, skipping k vals from_idx max_count (suc seen) (omega (arith, e)))

  page_lem :
      (vals : List Text) (from_idx max_count : ℕ)
      → page kv from_idx max_count 0 0 vals ≡ decode_all as_history (window from_idx max_count vals)
  page_lem vals from_idx zero =
      skipping from_idx vals from_idx 0 0 (omega arith)
      ∙ unbounded (drop from_idx vals) from_idx from_idx 0 (omega arith)
  page_lem vals from_idx (suc left) =
      skipping from_idx vals from_idx (suc left) 0 (omega arith)
      ∙ bounded (drop from_idx vals) from_idx (suc left) left from_idx 0 (omega arith) (omega arith)

  -- Of the values that DescendRange goes through between the conditions for the two instants, which are
  -- written to the whole second in UTC, GetEventHistory returns those that decode among the maxCount
  -- ones behind the first fromIdx, or among all behind them if maxCount is 0, in that order, each
  -- marked as history.
  pub get_event_history_lem :
      (room : Room) (from_ts to_ts : Time) (from_idx max_count : ℕ) (p : Bunt kv) (db : kv.Db)
      → lookup room.id p.room_dbs ≡ some db
      → get_event_history kv (some room) from_ts to_ts from_idx max_count p
        ≡ ok (
            decode_all as_history (
              window from_idx max_count (
                kv.descend_range
                  (codes "eventsts")
                  (codes "{\"created\":\"" ++ rfc3339 (in_utc to_ts) ++ codes "\"}")
                  (codes "{\"created\":\"" ++ rfc3339 (in_utc from_ts) ++ codes "\"}")
                  db)))
  unfolding get_event_history
  get_event_history_lem room from_ts to_ts from_idx max_count p db h =
      rw (h, get_event_history) (ap ok (page_lem _ from_idx max_count))
