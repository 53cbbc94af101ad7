-- ===== src/Session/Fifo.antt =====
-- The order of the messages that WriteLoop writes (ws/client.go), and its wait for itself.
use lightspeed_chat.Base.{
  ℕ, ◌≤◌, Text, Bool, true, false, ◌≡◌, refl, sym, ap, ◌∙◌, Option, List, [], ◌∷◌, ◌++◌,
  append_assoc, append-nil, length, length-append, ltb, if◌then◌else◌, returns, ◌>>=◌, Ensures,
  Ensures-bind, Ensures-if, Ensures-option, Ends, Ends-bind, Dict, arith,
}
use lightspeed_chat.Types.{Room, Event}
use lightspeed_chat.Filter.{ExprLib}
use lightspeed_chat.Delivery.{Client}
use lightspeed_chat.Session.Write.{add_to, group_events, write_events}
use lightspeed_chat.Delivery.{evaluate_filter_event}
use lightspeed_chat.Delivery.Filtering.{evaluate_filter_event-Ends}
use lightspeed_chat.Session.Pump.{
  Sending, sends, no_writer, write_fails, close_fails, Round, stops, closes, groups, receives,
  ticks, puts, Effect, queued, written, lost, pinged, closed, Result, goes_on, ends, stuck, after,
  queue_all, receive, write_round, write_loop,
}

-- The messages of the effects.
abbrev pub written_of : List Effect → List Text
written_of [] = []
written_of (written m ∷ es) = m ∷ written_of es
written_of (queued m ∷ es) = written_of es
written_of (lost m ∷ es) = written_of es
written_of (pinged ∷ es) = written_of es
written_of (closed ∷ es) = written_of es

abbrev pub queued_of : List Effect → List Text
queued_of [] = []
queued_of (queued m ∷ es) = m ∷ queued_of es
queued_of (written m ∷ es) = queued_of es
queued_of (lost m ∷ es) = queued_of es
queued_of (pinged ∷ es) = queued_of es
queued_of (closed ∷ es) = queued_of es

abbrev pub lost_of : List Effect → List Text
lost_of [] = []
lost_of (lost m ∷ es) = m ∷ lost_of es
lost_of (queued m ∷ es) = lost_of es
lost_of (written m ∷ es) = lost_of es
lost_of (pinged ∷ es) = lost_of es
lost_of (closed ∷ es) = lost_of es

lost_of-append : (es fs : List Effect) → lost_of es ≡ [] → lost_of (es ++ fs) ≡ lost_of fs
lost_of-append [] fs none_lost = refl
lost_of-append (lost m ∷ es) fs none_lost = cc
lost_of-append (queued m ∷ es) fs none_lost = lost_of-append es fs none_lost
lost_of-append (written m ∷ es) fs none_lost = lost_of-append es fs none_lost
lost_of-append (pinged ∷ es) fs none_lost = lost_of-append es fs none_lost
lost_of-append (closed ∷ es) fs none_lost = lost_of-append es fs none_lost

written_of-append : (es fs : List Effect) → written_of (es ++ fs) ≡ written_of es ++ written_of fs
written_of-append [] fs = refl
written_of-append (written m ∷ es) fs = ap (λ ms. m ∷ ms) (written_of-append es fs)
written_of-append (queued m ∷ es) fs = written_of-append es fs
written_of-append (lost m ∷ es) fs = written_of-append es fs
written_of-append (pinged ∷ es) fs = written_of-append es fs
written_of-append (closed ∷ es) fs = written_of-append es fs

queued_of-append : (es fs : List Effect) → queued_of (es ++ fs) ≡ queued_of es ++ queued_of fs
queued_of-append [] fs = refl
queued_of-append (queued m ∷ es) fs = ap (λ ms. m ∷ ms) (queued_of-append es fs)
queued_of-append (written m ∷ es) fs = queued_of-append es fs
queued_of-append (lost m ∷ es) fs = queued_of-append es fs
queued_of-append (pinged ∷ es) fs = queued_of-append es fs
queued_of-append (closed ∷ es) fs = queued_of-append es fs

-- What was queued, before or on the way, is written in that order, but for what is left.
abbrev IsLeft : List Text → List Effect → List Text → Type 0
IsLeft q es left = written_of es ++ left ≡ q ++ queued_of es

-- The messages written, the one that is lost where the loop ends on it, and those still queued are
-- together the messages queued, in their order; no more than the capacity are queued.
abbrev pub IsFifo : ℕ → List Text → Result → Type 0
IsFifo capacity q (goes_on es q') = IsLeft q es q' × (lost_of es ≡ []) × (length q' ≤ capacity)
IsFifo capacity q (ends es q') =
    IsLeft q es (lost_of es ++ q') × (length (lost_of es) ≤ 1) × (length q' ≤ capacity)
IsFifo capacity q (stuck es q') = IsLeft q es q' × (lost_of es ≡ []) × (length q' ≡ capacity)

IsLeft-append :
    (q q' left : List Text) (es fs : List Effect)
    → IsLeft q es q'
    → IsLeft q' fs left
    → IsLeft q (es ++ fs) left
IsLeft-append q q' left es fs h k =
    ap (λ ms. ms ++ left) (written_of-append es fs)
    ∙ append_assoc (written_of es) (written_of fs) left
    ∙ ap (λ ms. written_of es ++ ms) k
    ∙ sym (append_assoc (written_of es) q' (queued_of fs))
    ∙ ap (λ ms. ms ++ queued_of fs) h
    ∙ append_assoc q (queued_of es) (queued_of fs)
    ∙ ap (λ ms. q ++ ms) (sym (queued_of-append es fs))

after-IsFifo :
    (capacity : ℕ) (q q' : List Text) (es : List Effect) (r : Result)
    → IsLeft q es q'
    → lost_of es ≡ []
    → IsFifo capacity q' r
    → IsFifo capacity q (after es r)
after-IsFifo capacity q q' es (goes_on fs q'') h kept (k, none_lost, few) =
    (IsLeft-append q q' q'' es fs h k, lost_of-append es fs kept ∙ none_lost, few)
after-IsFifo capacity q q' es (ends fs q'') h kept (k, one, few) = (
  rw (lost_of-append es fs kept) (IsLeft-append q q' (lost_of fs ++ q'') es fs h k),
  rw (lost_of-append es fs kept) one,
  few,
)
after-IsFifo capacity q q' es (stuck fs q'') h kept (k, none_lost, full) =
    (IsLeft-append q q' q'' es fs h k, lost_of-append es fs kept ∙ none_lost, full)

if-case :
    {A : Type 0} (P : A → Type 0) (b : Bool) (x y : A)
    → (b ≡ true → P x)
    → (b ≡ false → P y)
    → P (if b then x else y)
if-case P true x y hx hy = hx refl
if-case P false x y hx hy = hy refl

length-snoc-le :
    (capacity : ℕ) (q : List Text) (m : Text)
    → ltb (length q) capacity ≡ true
    → length (q ++ (m ∷ [])) ≤ capacity
length-snoc-le capacity q m space = ground (arith, length-append q (m ∷ []), space)

queue_all-IsFifo :
    (capacity : ℕ) (ms q : List Text)
    → length q ≤ capacity
    → IsFifo capacity q (queue_all capacity ms q)
unfolding queue_all
queue_all-IsFifo capacity [] q few = (sym (append-nil q), refl, few)
queue_all-IsFifo capacity (m ∷ ms) q few =
    if-case (IsFifo capacity q) (ltb (length q) capacity) _ _
      (λ space.
        after-IsFifo capacity q (q ++ (m ∷ [])) (queued m ∷ [])
          (queue_all capacity ms (q ++ (m ∷ []))) refl refl
          (queue_all-IsFifo capacity ms (q ++ (m ∷ [])) (length-snoc-le capacity q m space)))
      (λ full. (sym (append-nil q), refl, ground (arith, few, full)))

one_lost :
    (capacity : ℕ) (m : Text) (q : List Text)
    → length (m ∷ q) ≤ capacity
    → IsFifo capacity (m ∷ q) (ends (lost m ∷ []) q)
one_lost capacity m q few = (sym (append-nil (m ∷ q)), omega arith, omega (arith, few))

receive-IsFifo :
    (capacity : ℕ) (sending : Sending) (q : List Text)
    → length q ≤ capacity
    → IsFifo capacity q (receive capacity sending q)
unfolding receive
receive-IsFifo capacity sending [] few = (refl, refl, few)
receive-IsFifo capacity sends (m ∷ q) few =
    (ap (λ ms. m ∷ ms) (sym (append-nil q)), refl, omega (arith, few))
receive-IsFifo capacity no_writer (m ∷ q) few = one_lost capacity m q few
receive-IsFifo capacity write_fails (m ∷ q) few = one_lost capacity m q few
receive-IsFifo capacity close_fails (m ∷ q) few = one_lost capacity m q few

module _ (capacity : ℕ) (lib : ExprLib) (marshal : Event → Option Text)
    (marshal_message : Text → List Text → Option Text) (room : Room) (client : Client) where
  group_events-Ends :
      (events : List Event) (slices : Dict (List Text))
      → Ends (group_events lib marshal room client events slices)
  unfolding group_events
  group_events-Ends [] slices = tt
  group_events-Ends (event ∷ events) slices =
      Ends-bind (evaluate_filter_event lib room client event) _
        (evaluate_filter_event-Ends lib room client event)
        λ passes.
          Ensures-if (λ _. Unit {0}) passes _ _
            (λ _.
              Ensures-option (λ _. Unit {0}) (marshal event) _ _
                (λ _. group_events-Ends events slices)
                (λ w _. group_events-Ends events (add_to event.name w slices)))
            (λ _. group_events-Ends events slices)

  write_events-Ends :
      (events : List Event) → Ends (write_events lib marshal marshal_message room client events)
  unfolding write_events
  write_events-Ends events =
      Ends-bind (group_events lib marshal room client events []) _ (group_events-Ends events [])
        (λ _. tt)

  write_round-IsFifo :
      (round : Round) (q : List Text)
      → length q ≤ capacity
      → Ensures
          (IsFifo capacity q)
          (write_round capacity lib marshal marshal_message room client round q)
  unfolding write_round
  write_round-IsFifo stops q few = (sym (append-nil q), omega arith, few)
  write_round-IsFifo closes q few = (sym (append-nil q), omega arith, few)
  write_round-IsFifo (groups events) q few =
      Ensures-bind (λ _. Unit {0}) (IsFifo capacity q)
        (write_events lib marshal marshal_message room client events) _ (write_events-Ends events)
        (λ messages _. queue_all-IsFifo capacity messages q few)
  write_round-IsFifo (receives sending) q few = receive-IsFifo capacity sending q few
  write_round-IsFifo (ticks true) q few = (sym (append-nil q), refl, few)
  write_round-IsFifo (ticks false) q few = (sym (append-nil q), omega arith, few)
  write_round-IsFifo (puts m) q few =
      if-case (IsFifo capacity q) (ltb (length q) capacity) _ _
        (λ space. (refl, refl, length-snoc-le capacity q m space))
        (λ _. (sym (append-nil q), refl, few))

  -- The messages that WriteLoop sends, then at most one that it takes and fails to send, on which it
  -- returns, then those still on `c.Send` are together the messages that were queued there, in their
  -- order; while it goes on none is lost, and it never queues more than the channel holds; where it
  -- waits for ever, none is lost either, and the channel, from which only it receives, is full.
  pub write_loop-IsFifo :
      (rounds : List Round) (q : List Text)
      → length q ≤ capacity
      → Ensures
          (IsFifo capacity q)
          (write_loop capacity lib marshal marshal_message room client rounds q)
  unfolding write_loop
  write_loop-IsFifo [] q few = (sym (append-nil q), refl, few)
  write_loop-IsFifo (round ∷ rounds) q few =
      Ensures-bind (IsFifo capacity q) (IsFifo capacity q)
        (write_round capacity lib marshal marshal_message room client round q) _
        (write_round-IsFifo round q few) (next (write_loop-IsFifo rounds))
    where
      next :
          ((q' : List Text)
            → length q' ≤ capacity
            → Ensures
                (IsFifo capacity q')
                (write_loop capacity lib marshal marshal_message room client rounds q'))
          → (r : Result) → IsFifo capacity q r
          → Ensures (IsFifo capacity q) (elim r [
            | goes_on es q' ↦
                write_loop capacity lib marshal marshal_message room client rounds q' >>= λ r'.
                returns (after es r')
            | ends es q' ↦ returns (ends es q')
            | stuck es q' ↦ returns (stuck es q')
          ])
      next more (goes_on es q') (h, kept, small) =
          Ensures-bind (IsFifo capacity q') (IsFifo capacity q)
            (write_loop capacity lib marshal marshal_message room client rounds q') _
            (more q' small) (λ r' k. after-IsFifo capacity q q' es r' h kept k)
      next more (ends es q') h = h
      next more (stuck es q') h = h
