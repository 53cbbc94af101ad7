-- ===== src/Examples/Pumps.antt =====
-- WriteLoop with a small channel (ws/client.go).
use lightspeed_chat.Base.{
  Text, codes, ◌≡◌, refl, some, List, [], ◌∷◌, Ensures, returns, arith, lookup, insert, text_eq,
}
use lightspeed_chat.Types.{new_event, Event}
use lightspeed_chat.Delivery.{evaluate_filter_event}
use lightspeed_chat.Session.Write.{write_events, group_events, send_groups}
use lightspeed_chat.Session.Pump.{
  Round, groups, receives, puts, sends, stuck, queued, written, write_loop, write_round, queue_all,
  receive,
}
use lightspeed_chat.Session.Fifo.{IsFifo, write_loop-IsFifo}
use lightspeed_chat.Examples.{room, chat_event, example_lib}
use lightspeed_chat.Examples.Hubs.{bob}

abbrev name_of : Event → Text
name_of event = event.name

abbrev rounds : List Round
rounds = puts (codes "a") ∷ receives sends ∷ puts (codes "b") ∷ groups (chat_event ∷ []) ∷ []

write_loop-IsFifo_example :
    Ensures (IsFifo 1 []) (
      write_loop 1 example_lib (λ e. some (name_of e)) (λ name slice. some name) room bob rounds [])
write_loop-IsFifo_example =
    write_loop-IsFifo 1 example_lib (λ e. some (name_of e)) (λ name slice. some name) room bob
      rounds [] (omega arith)

-- The channel is full, and the loop waits for itself.
waits_for_itself :
    write_loop 1 example_lib (λ e. some (name_of e)) (λ name slice. some name) room bob rounds []
    ≡ returns (
        stuck (queued (codes "a") ∷ written (codes "a") ∷ queued (codes "b") ∷ []) (codes "b" ∷ []))
unfolding write_loop write_round write_events group_events send_groups queue_all receive
    evaluate_filter_event new_event lookup insert text_eq
waits_for_itself = refl
