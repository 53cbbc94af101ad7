-- ===== src/Delivery/Recipients.antt =====
-- Exactly which clients a broadcast reaches (the broadcast case of Hub.Run in ws/hub.go).
use lightspeed_chat.Base.{
  ℕ, ◌≡◌, refl, Text, Bool, false, Option, none, some, List, [], ◌∷◌, map, select, arith,
  if◌then◌else◌, Run, returns, panics, runs_on, text_eq, All,
}
use lightspeed_chat.Types.{Room, Event}
use lightspeed_chat.Types.EventType
use lightspeed_chat.Types.Complete.{IsComplete, IsCompleteRoom}
use lightspeed_chat.Filter.{ExprLib}
use lightspeed_chat.Delivery.{
  Client, run_filter_event, broadcast_program, client_target, send_to_all, broadcast,
}
use lightspeed_chat.Delivery.Filtering.{hub_decision, run_filter-total}

-- Whether the filter let the event through.
abbrev pub passed : Run Bool → Bool
passed (returns b) = b
passed panics = false
passed runs_on = false

module _ (lib : ExprLib) (marshal : Event → Option Text) (room : Room) where
  -- The clients that the hub's decision admits, each with the wire event, in their order. Nobody
  -- gets an event that cannot be marshalled.
  abbrev pub copies : Event → List Client → Option Text → List (ℕ × Text)
  copies event clients none = []
  copies event clients (some d) =
      map (λ (c : Client). (c.number, d))
        (select (λ c. passed (hub_decision lib room c event)) clients)

  abbrev pub expected : List Client → Event → List (ℕ × Text)
  expected clients event =
      if text_eq event.name EventType.internal then [] else copies event clients (marshal event)

  copies-nil : (event : Event) (o : Option Text) → copies event [] o ≡ []
  copies-nil event none = refl
  copies-nil event (some d) = refl

  module _ (owned : IsCompleteRoom room) where
    hub_total :
        (c : Client) (event : Event)
        → IsComplete event
        → (b : Bool) × (hub_decision lib room c event ≡ returns b)
    unfolding run_filter_event
    hub_total c event h = run_filter-total lib room (client_target c) event _ owned h

    send_to_all_lem :
        (event : Event) (clients : List Client) (o : Option Text)
        → marshal event ≡ o
        → IsComplete event
        → send_to_all lib marshal room event (broadcast_program lib event) clients
          ≡ returns (copies event clients o)
    unfolding send_to_all
    send_to_all_lem event [] o m h = rw (copies-nil event o)
    send_to_all_lem event (c ∷ clients) none m h =
        let (b, q) = hub_total c event h in
        let rest = send_to_all_lem event clients none m h in ground (arith, q, rest, m)
    send_to_all_lem event (c ∷ clients) (some d) m h =
        let (b, q) = hub_total c event h in
        let rest = send_to_all_lem event clients (some d) m h in ground (arith, q, rest, m)

    -- For a room with an owner and any events without nil, the broadcast does not panic. For each
    -- event it sends one copy to each client that the hub's decision admits and no copy to any other,
    -- and it sends an internal event to nobody.
    pub broadcast_lem :
        (clients : List Client) (events : List Event)
        → All IsComplete events
        → broadcast lib marshal room clients events ≡ returns (map (expected clients) events)
    unfolding broadcast
    broadcast_lem clients [] h = refl
    broadcast_lem clients (event ∷ events) h =
        let each = send_to_all_lem event clients (marshal event) refl h.0 in
        let rest = broadcast_lem clients events h.1 in ground (arith, each, rest)
