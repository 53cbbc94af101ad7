-- ===== src/Session/Write.antt =====
-- What WriteLoop (ws/client.go) makes of a slice of events: the events that pass their filter, one
-- message for each name.
use lightspeed_chat.Base.{
  Text, codes, Dict, Bool, true, false, ◌≡◌, refl, Option, none, some, List, [], ◌∷◌, ◌++◌,
  append_assoc, append-nil, if◌then◌else◌, Run, returns, panics, runs_on, ap, sym, ◌∙◌, ◌>>=◌,
  lookup, insert, lookup-insert, text_eq, text_eq_iff, Bool-cases, inl, inr, Option-cases,
}
use lightspeed_chat.Types.{Room, Event}
use lightspeed_chat.Filter.{ExprLib}
use lightspeed_chat.Delivery.{Client, evaluate_filter_event}

-- `append` to the slice of a key that may be missing.
abbrev pub or_none : Option (List Text) → List Text
or_none none = []
or_none (some slice) = slice

abbrev pub add_to : Text → Text → Dict (List Text) → Dict (List Text)
add_to name w slices = insert name (or_none (lookup name slices) ++ (w ∷ [])) slices

-- `json.Marshal` of a message with this event field and these events; none for an error.
module _ (marshal_message : Text → List Text → Option Text) where
  -- The second loop, over the slices in the order of the range: what is put on `c.Send`.
  unfoldable pub send_groups : Dict (List Text) → List Text
  send_groups [] = []
  send_groups ((name, slice) ∷ slices) =
      let rest = send_groups slices in
      elim (marshal_message (name ++ codes "s") slice) [ none ↦ rest | some w ↦ w ∷ rest ]

-- `json.Marshal` of a wire event.
module _ (lib : ExprLib) (marshal : Event → Option Text) where
  -- The first loop, with the slices of the events before.
  unfoldable pub group_events :
      Room → Client → List Event → Dict (List Text) → Run (Dict (List Text))
  group_events room client [] slices = returns slices
  group_events room client (event ∷ events) slices = do
    passes ← evaluate_filter_event lib room client event
    (if passes
        then elim (marshal event) [
          | none ↦ group_events room client events slices
          | some w ↦ group_events room client events (add_to event.name w slices)
        ]
        else group_events room client events slices)

  unfoldable pub write_events :
      (Text → List Text → Option Text) → Room → Client → List Event → Run (List Text)
  unfolding group_events send_groups
  write_events marshal_message room client events = do
    slices ← group_events room client events []
    returns (send_groups marshal_message slices)

  -- What a client should get under a name: the events of that name which pass, in their order.
  abbrev pub wanted : Room → Client → Text → List Event → Run (List Text)
  wanted room client name [] = returns []
  wanted room client name (event ∷ events) = do
    passes ← evaluate_filter_event lib room client event
    rest ← wanted room client name events
    returns (
        if passes
        then if text_eq event.name name
          then elim (marshal event) [ none ↦ rest | some w ↦ w ∷ rest ]
          else rest
        else rest)

  abbrev from : Text → Dict (List Text) → Run (List Text) → Run (List Text)
  from name slices m = m >>= λ slice. returns (or_none (lookup name slices) ++ slice)

  abbrev slice_of : Text → Run (Dict (List Text)) → Run (List Text)
  slice_of name m = m >>= λ groups. returns (or_none (lookup name groups))

  add_to_self :
      (event name w : Text) (slices : Dict (List Text)) (m : Run (List Text))
      → text_eq event name ≡ true
      → from name (add_to event w slices) m
        ≡ (m >>= λ rest. returns (or_none (lookup name slices) ++ (w ∷ rest)))
  add_to_self event name w slices (returns rest) same =
      let e : event ≡ name = (text_eq_iff event name).0 same in
      ap returns (
        rw (lookup-insert, same) (rw e (append_assoc (or_none (lookup name slices)) (w ∷ []) rest)))
  add_to_self event name w slices panics same = refl
  add_to_self event name w slices runs_on same = refl

  add_to_other :
      (event name w : Text) (slices : Dict (List Text)) (m : Run (List Text))
      → text_eq event name ≡ false
      → from name (add_to event w slices) m ≡ from name slices m
  add_to_other event name w slices (returns rest) other = rw (lookup-insert, other) refl
  add_to_other event name w slices panics other = refl
  add_to_other event name w slices runs_on other = refl

  pass_on :
      (m : Run (List Text)) (g h : List Text → List Text)
      → ((m >>= λ rest. returns (g rest)) >>= λ slice. returns (h slice))
        ≡ (m >>= λ rest. returns (h (g rest)))
  pass_on (returns rest) g h = refl
  pass_on panics g h = refl
  pass_on runs_on g h = refl

  unchanged :
      (name : Text) (slices : Dict (List Text)) (m : Run (List Text))
      → from name slices (m >>= λ rest. returns rest) ≡ from name slices m
  unchanged name slices m =
      pass_on m (λ rest. rest) (λ slice. or_none (lookup name slices) ++ slice)

  group_events-from :
      (room : Room) (client : Client) (name : Text) (events : List Event)
      (slices : Dict (List Text))
      → slice_of name (group_events room client events slices)
        ≡ from name slices (wanted room client name events)
  unfolding group_events
  group_events-from room client name [] slices = rw (append-nil (or_none (lookup name slices))) refl
  group_events-from room client name (event ∷ events) slices =
      go (evaluate_filter_event lib room client event) refl
        (group_events-from room client name events)
    where
      go :
          (r : Run Bool)
          → evaluate_filter_event lib room client event ≡ r
          → ((slices : Dict (List Text))
              → slice_of name (group_events room client events slices)
                ≡ from name slices (wanted room client name events))
          → slice_of name (group_events room client (event ∷ events) slices)
            ≡ from name slices (wanted room client name (event ∷ events))
      go panics e ih = rw e refl
      go runs_on e ih = rw e refl
      go (returns false) e ih =
          rw e (ih slices ∙ sym (unchanged name slices (wanted room client name events)))
      go (returns true) e ih = elim (Option-cases (marshal event)) [
        | inl bad ↦ elim (Bool-cases (text_eq event.name name)) [
          | inl same ↦
              rw (e, bad, same)
                (ih slices ∙ sym (unchanged name slices (wanted room client name events)))
          | inr other ↦
              rw (e, bad, other)
                (ih slices ∙ sym (unchanged name slices (wanted room client name events)))
        ]
        | inr (w, good) ↦ elim (Bool-cases (text_eq event.name name)) [
          | inl same ↦
              rw (e, good, same)
                (ih (add_to event.name w slices)
                  ∙ add_to_self event.name name w slices (wanted room client name events) same
                  ∙ sym (
                      pass_on (wanted room client name events) (λ rest. w ∷ rest)
                        (λ slice. or_none (lookup name slices) ++ slice)))
          | inr other ↦
              rw (e, good, other)
                (ih (add_to event.name w slices)
                  ∙ add_to_other event.name name w slices (wanted room client name events) other
                  ∙ sym (unchanged name slices (wanted room client name events)))
        ]
      ]

  bind_id : (m : Run (List Text)) → (m >>= λ slice. returns slice) ≡ m
  bind_id (returns slice) = refl
  bind_id panics = refl
  bind_id runs_on = refl

  -- The slice that WriteLoop marshals under a name holds the events of that name which pass their
  -- filter and can be marshalled, each once and in the order in which they came; where a filter
  -- panics, the loop does.
  pub group_events_lem :
      (room : Room) (client : Client) (name : Text) (events : List Event)
      → (group_events room client events [] >>= λ groups. returns (or_none (lookup name groups)))
        ≡ wanted room client name events
  unfolding lookup
  group_events_lem room client name events =
      group_events-from room client name events [] ∙ bind_id (wanted room client name events)
