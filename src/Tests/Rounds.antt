-- ===== src/Tests/Rounds.antt =====
-- Runs of both tasks at concrete inputs.
use esphome.Prelude.{
  ℕ, zero, suc, ◌/◌, ◌<◌, ◌≡◌, ◌⊎◌, ◌↔◌, refl, sym, subst, true, List, [], ◌∷◌, ◌++◌, map, none,
  some, arith, All,
}
use esphome.Telegram.Received.{new_telegram}
use esphome.Telegram.Command.{no_command}
use esphome.Ebus.Safety.{new_telegram-IsReceiving}
use esphome.Item.{Floats, ebus_sensor, item_of}
use esphome.Component.{Queues, EbusComponent, update, receive_byte}
use esphome.Component.Polling.{polled, poll_of, update-polled}
use esphome.Component.Fifo.{IsFifo}
use esphome.Component.Delivery.{Round, byte_round, message_round}
use esphome.Component.Hardware.{
  HardwareCall, port_enter_critical, uart_param_config, uart_set_pin, uart_config,
  uart_pin_no_change, setup_queues, setup,
}
use esphome.Component.Log.{text, number, message_log}
use esphome.Component.Traffic.{
  CommandRound, byte_round as command_byte, poll_round, send_round, IsCommandRound,
}
use esphome.Component.Overrun.{Fetches, receive_byte-overruns_iff}
use esphome.Component.Conveys.{Keeps, Overruns, run_commands-kept}
use esphome.Tests.Driver.{locked}

abbrev whole_numbers : Floats
whole_numbers = record { Float = ℕ; of_uint32 = λ n. n; divide = λ a b. a / b }

-- Queues of a list, with the room that is left and the size of an item.
abbrev pub lists : Queues
lists = record {
  Queue = λ A. List A × ℕ × ℕ;
  create = λ size item_size. ([], size, item_size);
  item_size = λ queue. queue.2;
  send_to_back =
      λ x queue. elim queue.1 [ zero ↦ none | suc left ↦ some (queue.0 ++ x ∷ [], left, queue.2) ];
  receive = λ queue. elim queue.0 [ [] ↦ none | x ∷ rest ↦ some (x, (rest, suc queue.1, queue.2)) ];
}

pub lists_send :
    {A : Type 0} (x : A) (xs : List A) (left size : ℕ)
    → 0 < left
    → (longer : List A × ℕ × ℕ) × (lists.send_to_back x (xs, left, size) ≡ some longer)
      × (longer.0 ≡ xs ++ x ∷ [])
      × (suc longer.1 ≡ left)
      × (longer.2 ≡ size)
lists_send x xs zero size free = absurd (omega arith)
lists_send x xs (suc left) size free = ((xs ++ x ∷ [], left, size), refl, refl, refl, refl)

pub lists_refuse :
    {A : Type 0} (x : A) (xs : List A) (left size : ℕ)
    → left ≡ 0
    → lists.send_to_back x (xs, left, size) ≡ none
lists_refuse x xs zero size full = refl
lists_refuse x xs (suc left) size full = absurd (omega arith)

pub lists_none :
    {A : Type 0} (xs : List A) (left size : ℕ) → xs ≡ [] → lists.receive (xs, left, size) ≡ none
lists_none [] left size e = refl
lists_none (x ∷ xs) left size e = cc

pub lists_receive :
    {A : Type 0} (x : A) (xs ys : List A) (left size : ℕ)
    → ys ≡ x ∷ xs
    → (shorter : List A × ℕ × ℕ) × (lists.receive (ys, left, size) ≡ some (x, shorter))
      × (shorter.0 ≡ xs)
      × (shorter.1 ≡ suc left)
lists_receive x xs [] left size e = cc
lists_receive x xs (y ∷ ys) left size e =
    subst
      (λ r.
        (shorter : List _ × ℕ × ℕ) × (lists.receive (r, left, size) ≡ some (x, shorter))
        × (shorter.0 ≡ xs)
        × (shorter.1 ≡ suc left))
      (sym e) ((xs, suc left, size), refl, refl, refl)

abbrev pub lists-IsFifo : IsFifo lists
lists-IsFifo = record {
  contents = λ queue. queue.0;
  room = λ queue. queue.1;
  creates = λ size item_size. refl;
  has_room = λ size item_size. refl;
  has_size = λ size item_size. refl;
  sends = λ x queue free. lists_send x queue.0 queue.1 queue.2 free;
  refuses = λ x queue full. lists_refuse x queue.0 queue.1 queue.2 full;
  receives_none = λ queue e. lists_none queue.0 queue.1 queue.2 e;
  receives = λ x xs queue e. lists_receive x xs queue.0 queue.1 queue.2 e;
}

abbrev component : EbusComponent whole_numbers lists
component = record {
  primary_address = 0x03;
  max_tries = 2;
  max_lock_counter = 4;
  history_queue_size = 5;
  command_queue_size = 5;
  uart_num = 2;
  uart_tx_pin = 33;
  uart_rx_pin = 32;
  history_queue = ([], 5, 46);
  command_queue = ([], 5, 46);
  items =
      ebus_sensor
        (record {
          address = 0x08;
          send_poll = true;
          command = 0xB509;
          payload = 0x0D ∷ 0x02 ∷ [];
          response_position = 0;
        })
        2 10
      ∷ [];
  ebus = locked;
}

abbrev rounds : List Round
rounds =
    byte_round 0xAA
    ∷ byte_round 0x10
    ∷ message_round
    ∷ byte_round 0xAA
    ∷ byte_round 0xAA
    ∷ message_round
    ∷ []

update-polled_example :
    update whole_numbers lists component
    ≡ some (map (poll_of 0x03) (polled (map (item_of whole_numbers) component.items)))
update-polled_example = update-polled whole_numbers lists component (omega arith, tt)

-- The pins cannot be set.
abbrev broken : HardwareCall → ℕ
broken (uart_set_pin num tx rx rts cts) = 258
broken _ = 0

-- The calls made before the program ends.
pins_fail : setup whole_numbers lists broken component ≡ (
  port_enter_critical
      ∷ uart_param_config 2 uart_config
      ∷ uart_set_pin 2 33 32 uart_pin_no_change uart_pin_no_change
      ∷ [],
  none,
)
unfolding setup
pins_fail = refl

-- What is logged of a telegram that has not completed.
incomplete_logged :
    message_log whole_numbers lists component new_telegram
    ≡ record {
      format = "Message received with invalid state: %s, QQ:%02X, ZZ:%02X, Command:%02X%02X";
      arguments = text "waitForSyn" ∷ number 0xA9 ∷ number 0xA9 ∷ number 0 ∷ number 0 ∷ [];
    }
      ∷ []
unfolding message_log new_telegram
incomplete_logged = refl

abbrev command_rounds : List CommandRound
command_rounds =
    poll_round
    ∷ send_round
    ∷ command_byte 0xAA
    ∷ send_round
    ∷ poll_round
    ∷ command_byte 0x10
    ∷ send_round
    ∷ []

command_rounds-IsCommandRound : All IsCommandRound command_rounds
command_rounds-IsCommandRound = (tt, (tt, (omega arith, (tt, (tt, (omega arith, (tt, tt)))))))

run_commands-kept_example :
    Keeps whole_numbers lists lists-IsFifo command_rounds (locked.active_command ∷ []) component
    ⊎ Overruns whole_numbers lists lists-IsFifo command_rounds
        (locked.active_command ∷ [])
        component
run_commands-kept_example =
    run_commands-kept whole_numbers lists lists-IsFifo command_rounds (locked.active_command ∷ [])
      component command_rounds-IsCommandRound (omega arith, tt) new_telegram-IsReceiving
      (unfold setup_queues in refl)

-- The same component with no command active, and one in the queue.
abbrev fetching : EbusComponent whole_numbers lists
fetching = record component {
  command_queue = (locked.active_command ∷ [], 4, 46);
  ebus = record locked { active_command = no_command };
}

receive_byte-overruns_iff_example :
    (receive_byte whole_numbers lists 0xAA fetching ≡ none)
    ↔ Fetches whole_numbers lists lists-IsFifo 0xAA fetching
receive_byte-overruns_iff_example =
    receive_byte-overruns_iff whole_numbers lists lists-IsFifo 0xAA fetching (omega arith)
      new_telegram-IsReceiving (unfold setup_queues in refl)
