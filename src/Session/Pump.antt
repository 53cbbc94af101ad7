-- ===== src/Session/Pump.antt =====
-- The loops WriteLoop and PluginLoop of a client (ws/client.go), round by round. A round is one branch of
-- the select with what the connection answers; what others put on `c.Send` is a round too.
use lightspeed_chat.Base.{
  ℕ, Text, Bool, true, false, Option, none, some, List, [], ◌∷◌, ◌++◌, length, ltb, if◌then◌else◌,
  Run, returns, ◌>>=◌,
}
use lightspeed_chat.Types.{Room, Event}
use lightspeed_chat.Filter.{ExprLib}
use lightspeed_chat.Delivery.{Client}
use lightspeed_chat.Session.Write.{write_events}

-- How sending a message ends.
pub data Sending : Type 0 where
  sends no_writer write_fails close_fails : Sending

pub data Round : Type 0 where
  -- `doneChan` is closed; one of the other channels is, and has nothing left.
  stops closes : Round
  -- A slice from `c.SendEvents`; a message from `c.Send`; the ticker.
  groups : List Event → Round
  receives : Sending → Round
  ticks : Bool → Round
  -- Another goroutine sends to `c.Send`, if there is room.
  puts : Text → Round

-- What is done, in its order.
pub data Effect : Type 0 where
  queued written : Text → Effect
  -- Taken from `c.Send`, but not sent.
  lost : Text → Effect
  pinged closed : Effect

-- The loop goes on, has returned, or waits for ever for room on `c.Send`, from which only this loop
-- receives; with what is queued on `c.Send`.
pub data Result : Type 0 where
  goes_on ends stuck : List Effect → List Text → Result

abbrev pub after : List Effect → Result → Result
after es (goes_on fs q) = goes_on (es ++ fs) q
after es (ends fs q) = ends (es ++ fs) q
after es (stuck fs q) = stuck (es ++ fs) q

module _ (capacity : ℕ) where
  -- The sends of the second loop over the groups.
  unfoldable pub queue_all : List Text → List Text → Result
  queue_all [] q = goes_on [] q
  queue_all (m ∷ ms) q =
      let rest = queue_all ms (q ++ (m ∷ [])) in
      if ltb (length q) capacity then after (queued m ∷ []) rest else stuck [] q

  unfoldable pub receive : Sending → List Text → Result
  receive sending [] = goes_on [] []
  receive sends (m ∷ q) = goes_on (written m ∷ []) q
  receive no_writer (m ∷ q) = ends (lost m ∷ []) q
  receive write_fails (m ∷ q) = ends (lost m ∷ []) q
  receive close_fails (m ∷ q) = ends (lost m ∷ []) q

  module _ (lib : ExprLib) (marshal : Event → Option Text)
      (marshal_message : Text → List Text → Option Text) (room : Room) (client : Client) where
    -- One round of WriteLoop.
    unfoldable pub write_round : Round → List Text → Run Result
    unfolding queue_all receive
    write_round stops q = returns (ends [] q)
    write_round closes q = returns (ends (closed ∷ []) q)
    write_round (groups events) q = do
      messages ← write_events lib marshal marshal_message room client events
      returns (queue_all messages q)
    write_round (receives sending) q = returns (receive sending q)
    write_round (ticks true) q = returns (goes_on (pinged ∷ []) q)
    write_round (ticks false) q = returns (ends [] q)
    write_round (puts m) q =
        returns (
          if ltb (length q) capacity then goes_on (queued m ∷ []) (q ++ (m ∷ [])) else goes_on [] q)

    -- WriteLoop, until it ends or the rounds do.
    unfoldable pub write_loop : List Round → List Text → Run Result
    unfolding write_round
    write_loop [] q = returns (goes_on [] q)
    write_loop (round ∷ rounds) q = do
      r ← write_round round q
      elim r [
        | goes_on es q' ↦ write_loop rounds q' >>= λ r'. returns (after es r')
        | ends es q' ↦ returns (ends es q')
        | stuck es q' ↦ returns (stuck es q')
      ]

-- One round of PluginLoop, over the chain of plugins; its error is logged, and it is always nil.
-- A closed channel is none.
unfoldable pub plugin_round :
    {H : Type 0} → (List Event → H → Run H) → Option (List Event) → H → Run (Bool × H)
plugin_round handle_plugins none h = returns (false, h)
plugin_round handle_plugins (some events) h = handle_plugins events h >>= λ h'. returns (true, h')
