-- ===== src/Zebus/Setup.antt =====
-- What `setup` of esphome/components/zebus/zebus.h leaves: the driver with its only handler.
use esphome.Prelude.{
  ℕ, ◌≡◌, refl, ap, sym, subst, ◌∙◌, List, [], ◌∷◌, ◌++◌, length, length-append, length-drop, drop,
  Option, none, some, ◌>>=◌, arith, All,
}
use esphome.Ebus.{Effect, uart_send, queue_received_telegram, dequeue_command}
use esphome.Item.{Floats}
use esphome.Component.{Queues}
use esphome.Component.Fifo.{IsFifo}
use esphome.Component.Delivery.{Round, byte_round, message_round}
use esphome.Zebus.Types.{Telegram, SendCommand, sizeof_telegram}
use esphome.Zebus.Driver.{new_driver, append_handler}
use esphome.Zebus.Messages.{Identification, identify, identification_response, name_bytes}
use esphome.Zebus.Component.{
  Zebus, setup, take_dequeued, carry_out, next_dequeued, ebus_process_received_byte,
  ebus_process_received_message,
}
use esphome.Zebus.Hardware.{setup_queues}
use esphome.Zebus.Safety.{IsStored, initial_telegram-IsStored}
use esphome.Zebus.Invariant.{WritesWithin, process_received_char-RunsWithin, Returns}

length-identification_response : (id : Identification) → length (identification_response id) ≡ 10
unfolding identification_response name_bytes
length-identification_response id = refl

identify-WritesWithin : (id : Identification) → WritesWithin (identify id)
unfolding identify
identify-WritesWithin id t buf size = ground (
  arith,
  length-append (identification_response id) (drop 10 buf),
  length-identification_response id,
  length-drop 10 buf,
)

module _ (f : Floats) (q : Queues) where
  -- The rounds of the two tasks, in any order.
  unfoldable pub run_tasks : List Round → Zebus f q → Option (Zebus f q)
  run_tasks [] z = some z
  run_tasks (byte_round byte ∷ rest) z =
      ebus_process_received_byte f q byte z >>= λ done. run_tasks rest done.0
  run_tasks (message_round ∷ rest) z = run_tasks rest (ebus_process_received_message f q z).0

  -- With no command in the queue, the callbacks leave that and the driver alone.
  record CarriesOut (z : Zebus f q) (result : Option (Zebus f q × List ℕ)) : Type 0 where
    next : Zebus f q
    sent : List ℕ
    returns : result ≡ some (next, sent)
    same_commands : next.telegram_command_queue ≡ z.telegram_command_queue
    same_driver : next.ebus ≡ z.ebus

  take_dequeued-empty :
      (queue : q.Queue SendCommand) → q.receive queue ≡ none → take_dequeued f q queue ≡ some queue
  unfolding take_dequeued
  take_dequeued-empty queue e = rw (e, take_dequeued) refl

  carry_out-CarriesOut :
      (effects : List Effect) (z : Zebus f q)
      → q.receive z.telegram_command_queue ≡ none
      → CarriesOut z (carry_out f q effects z)
  unfolding carry_out
  carry_out-CarriesOut [] z empty = record {
    next = z;
    sent = [];
    returns = refl;
    same_commands = refl;
    same_driver = refl;
  }
  carry_out-CarriesOut (uart_send bytes ∷ rest) z empty =
      let r = carry_out-CarriesOut rest z empty in
      record {
        next = r.next;
        sent = bytes ++ r.sent;
        returns = rw (r.returns) refl;
        same_commands = r.same_commands;
        same_driver = r.same_driver;
      }
  carry_out-CarriesOut (queue_received_telegram t ∷ rest) z empty =
      let stored : q.Queue Telegram = elim (q.send_to_back t z.telegram_history_queue) [
        | none ↦ z.telegram_history_queue
        | some longer ↦ longer
      ] in
      let r = carry_out-CarriesOut rest (record z { telegram_history_queue = stored }) empty in
      record {
        next = r.next;
        sent = r.sent;
        returns = r.returns;
        same_commands = r.same_commands;
        same_driver = r.same_driver;
      }
  carry_out-CarriesOut (dequeue_command ∷ rest) z empty =
      let r = carry_out-CarriesOut rest z empty in
      record {
        next = r.next;
        sent = r.sent;
        returns = rw (take_dequeued-empty z.telegram_command_queue empty) (r.returns);
        same_commands = r.same_commands;
        same_driver = r.same_driver;
      }

  message-same :
      (z : Zebus f q)
      → ((ebus_process_received_message f q z).0.ebus ≡ z.ebus)
        × ((ebus_process_received_message f q z).0.telegram_command_queue
            ≡ z.telegram_command_queue)
  unfolding ebus_process_received_message
  message-same z = ground arith

  run_tasks-Returns :
      (rounds : List Round) (z : Zebus f q)
      → q.receive z.telegram_command_queue ≡ none
      → IsStored z.ebus.receiving_telegram
      → All WritesWithin z.ebus.send_response_handlers
      → Returns (run_tasks rounds z)
  unfolding run_tasks
  run_tasks-Returns [] z empty v w = (z, refl)
  run_tasks-Returns (byte_round byte ∷ rest) z empty v w =
      let p = process_received_char-RunsWithin (next_dequeued f q z) byte z.ebus v w in
      let r = carry_out-CarriesOut p.effects (record z { ebus = p.next }) empty in
      let read : ebus_process_received_byte f q byte z ≡ some (r.next, r.sent) =
        unfold ebus_process_received_byte in rw (p.returns) (r.returns) in
      rw (read) (
        run_tasks-Returns rest r.next (ap (λ queue. q.receive queue) r.same_commands ∙ empty)
          (subst (λ e. IsStored e.receiving_telegram) (sym r.same_driver) p.valid)
          (subst (λ e. All WritesWithin e.send_response_handlers) (sym r.same_driver) p.handlers))
  run_tasks-Returns (message_round ∷ rest) z empty v w =
      let same = message-same z in
      run_tasks-Returns rest (ebus_process_received_message f q z).0
        (ap (λ queue. q.receive queue) same.1 ∙ empty)
        (subst (λ e. IsStored e.receiving_telegram) (sym same.0) v)
        (subst (λ e. All WritesWithin e.send_response_handlers) (sym same.0) w)

-- After `setup` with its queues, the rounds of the two tasks return in whatever order they come,
-- whatever bytes are received, as long as `update` queues no command: no byte leads to an access
-- outside a buffer. The command queue is one that keeps the order.
pub setup-Returns :
    (f : Floats) (q : Queues) (fifo : IsFifo q) (z : Zebus f q) (rounds : List Round)
    → Returns (run_tasks f q rounds (setup f q (setup_queues f q z)))
unfolding setup setup_queues new_driver append_handler
setup-Returns f q fifo z rounds =
    run_tasks-Returns f q rounds (setup f q (setup_queues f q z))
      (fifo.receives_none _ (fifo.creates z.zebus_config.queues.command_size sizeof_telegram))
      initial_telegram-IsStored (identify-WritesWithin z.zebus_config.identification, tt)
