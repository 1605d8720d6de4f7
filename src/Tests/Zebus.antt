-- ===== src/Tests/Zebus.antt =====
-- The earlier driver at concrete inputs.
use esphome.Prelude.{
  ℕ, ◌≡◌, refl, inr, true, false, List, [], ◌∷◌, ◌++◌, ◌/◌, ◌^◌, bit_and, u8, none, some, ◌>>=◌,
  arith, All,
}
use esphome.Elf.{is_primary, crc8_array, crc8_from, crc8_calc}
use esphome.Telegram.{wait_for_request_ack, end_arbitration}
use esphome.Telegram.Received.{Telegram, new_telegram}
use esphome.Telegram.Command.{no_command, send_command}
use esphome.Telegram.Frame.{request_of}
use esphome.Telegram.Sent.{request_body, request_frame}
use esphome.Ebus.{Ebus, arbitration}
use esphome.Ebus.Process.{process_received_char}
use esphome.Ebus.Safety.{new_telegram-IsReceiving}
use esphome.Ebus.Reception.{telegram_of}
use esphome.Ebus.Sending.{on_wire}
use esphome.Ebus.Replies.{answer}
use esphome.Item.{Floats}
use esphome.Zebus.Elf.{to_slave, is_master}
use esphome.Zebus.Telegram.{is_finished, is_request_valid, get_zz}
use esphome.Zebus.SendCommand.{new_command}
use esphome.Zebus.Driver.{Ebus as OldEbus, new_driver, handle_response}
use esphome.Zebus.Process.{process_received_char as process_received_char'}
use esphome.Zebus.SameSteps.{earlier, earlier_result}
use esphome.Zebus.Runs.{run_with, Input, IsPlain, runs_same}
use esphome.Zebus.Safety.{initial_telegram-IsStored}
use esphome.Zebus.Invariant.{RunsWithin, process_received_char-RunsWithin, Returns}
use esphome.Zebus.Commands.{new_command_same, poll-commands, command_of, IsNotEsc}
use esphome.Zebus.Hardware.{setup_queues}
use esphome.Zebus.Setup.{run_tasks, setup-Returns}
use esphome.Component.Delivery.{Round, byte_round, message_round}
use esphome.Tests.Rounds.{lists, lists-IsFifo}
use esphome.Zebus.Stuffed.{Stuffed, receive_bytes-Stuffed}
use esphome.Zebus.Messages.{
  command_of_telegram, cmd_identification, published, water_pressure, disp_room_temp,
}
use esphome.Zebus.Identify.{handle_response-identifies}
use esphome.Zebus.Component.{Zebus, setup, poll, handle_telegram}
use esphome.Zebus.Publish.{config_answer, handle_telegram-published}

abbrev bus : Ebus
bus = record {
  primary_address = 0x03;
  max_tries = 2;
  max_lock_counter = 4;
  lock_counter = 0;
  char_count_since_last_syn = 0;
  in_esc = false;
  state = arbitration;
  receiving_telegram = new_telegram;
  active_command = no_command;
  send_response_handlers = (λ t. 0x42 ∷ []) ∷ [];
  queues_received_telegrams = true;
}

-- A request to the secondary address 0x08.
abbrev inputs : List Input
inputs =
    (none, 0xAA)
    ∷ (none, 0x10)
    ∷ (none, 0x08)
    ∷ (none, 0xB5)
    ∷ (some none, 0x09)
    ∷ (none, 0x00)
    ∷ []

inputs-IsPlain : All IsPlain inputs
inputs-IsPlain = (
  (omega arith, omega arith),
  (
    (omega arith, omega arith),
    (
      (omega arith, omega arith),
      ((omega arith, omega arith), ((omega arith, omega arith), ((omega arith, omega arith), tt))),
    ),
  ),
)

runs_same_example :
    run_with process_received_char' inputs (earlier bus)
    ≡ (run_with process_received_char inputs bus >>= λ r. some (earlier_result r))
runs_same_example =
    runs_same inputs bus
      (record { closed = refl; valid = new_telegram-IsReceiving; fits = λ t. (omega arith, tt) })
      inputs-IsPlain

abbrev driver : OldEbus
driver = new_driver (record { master_address = 0x03; max_tries = 2; max_lock_counter = 4 })

process_received_char-RunsWithin_example : RunsWithin (process_received_char' none 0xAA driver)
unfolding new_driver
process_received_char-RunsWithin_example =
    process_received_char-RunsWithin none 0xAA driver initial_telegram-IsStored tt

frame-IsNotEsc : All IsNotEsc (request_frame 0x03 0x08 0xB5 0x09 (0x0D ∷ []))
unfolding crc8_array crc8_from crc8_calc
frame-IsNotEsc = (
  omega arith,
  (omega arith, (omega arith, (omega arith, (omega arith, (omega arith, (omega arith, tt)))))),
)

new_command_same_example :
    new_command 0x03 0x08 (u8 (0xB509 / 2 ^ 8)) (bit_and 0xB509 0xFF) 1 (0x0D ∷ [])
    ≡ send_command 0x03 0x08 0xB509 (0x0D ∷ [])
new_command_same_example =
    new_command_same 0x03 0x08 0xB509 (0x0D ∷ []) (omega arith) frame-IsNotEsc

-- What is left of a telegram that was cut off.
abbrev ended : Telegram
ended = telegram_of end_arbitration (0x10 ∷ []) 0x10

-- A request to the secondary address 0x08, with a SYN among its data.
receive_bytes-Stuffed_example :
    Stuffed 0x08 (request_body 0x10 0x08 0xB5 0x09 (0x0D ∷ 0xAA ∷ []) ++ 0x12 ∷ []) ended
receive_bytes-Stuffed_example =
    receive_bytes-Stuffed 0x10 0x08 0xB5 0x09 0x12 (0x0D ∷ 0xAA ∷ []) ended
      (inr (inr (unfold is_finished in refl))) (omega arith) (omega arith) (omega arith)

abbrev whole_numbers : Floats
whole_numbers = record { Float = ℕ; of_uint32 = λ n. n; divide = λ a b. a / b }

abbrev heating : Zebus whole_numbers lists
heating = record {
  zebus_config = record {
    interval_ms = 30000;
    uart = record { num = 2; pin_rx = 32; pin_tx = 33 };
    queues = record { history_size = 20; command_size = 10 };
    ebus_config = record { master_address = 0x03; max_tries = 2; max_lock_counter = 4 };
    identification = record {
      device_name = b'E' ∷ b'S' ∷ b'P' ∷ [];
      vendor_id = 0xDD;
      software_version = 0x0102;
      hardware_version = 0x0304;
    };
  };
  ebus = driver;
  telegram_history_queue = ([], 20, 46);
  telegram_command_queue = ([], 10, 46);
  message_handlers = [];
}

-- The rounds of both tasks, behind the set-up.
abbrev task_rounds : List Round
task_rounds =
    byte_round 0xAA ∷ byte_round 0x10 ∷ message_round ∷ byte_round 0xAA ∷ byte_round 0xAA ∷ []

setup-Returns_example : Returns (
    run_tasks whole_numbers lists task_rounds
      (setup whole_numbers lists (setup_queues whole_numbers lists heating)))
setup-Returns_example = setup-Returns whole_numbers lists lists-IsFifo heating task_rounds

poll-commands_example :
    poll whole_numbers lists heating
    ≡ some (
        command_of (request_body 0x03 0x08 0xB5 0x09 (0x0D ∷ 0x02 ∷ 0x00 ∷ []))
        ∷ command_of (request_body 0x03 0x15 0xB5 0x09 (0x0D ∷ 0x3E ∷ 0x00 ∷ []))
        ∷ [])
poll-commands_example = poll-commands whole_numbers lists heating (omega arith) primary
  where
    primary : is_primary 0x03 ≡ true
    primary = unfold is_primary in refl

-- The request for the identification.
abbrev asked : Telegram
asked = record {
  base =
      request_of wait_for_request_ack (request_frame 0x10 0x08 0x07 0x04 [])
        (crc8_array (request_body 0x10 0x08 0x07 0x04 []));
  response_buffer = [];
  response_buffer_pos = 0;
  response_rolling_crc = 0;
}

asked_valid : is_request_valid asked ≡ true
unfolding is_request_valid crc8_array crc8_from crc8_calc
asked_valid = refl

asked_command : command_of_telegram asked ≡ cmd_identification
unfolding command_of_telegram
asked_command = refl

ours : get_zz asked.base ≡ to_slave 0x03
unfolding get_zz to_slave is_master
ours = refl

handle_response-identifies_example :
    (handle_response (setup whole_numbers lists heating).ebus asked >>= λ effects.
    some (on_wire effects))
    ≡ some (answer (0xDD ∷ b'E' ∷ b'S' ∷ b'P' ∷ b'-' ∷ b'-' ∷ 0x01 ∷ 0x02 ∷ 0x03 ∷ 0x04 ∷ []))
handle_response-identifies_example =
    handle_response-identifies whole_numbers lists heating asked (omega arith) (omega arith) refl
      ours asked_valid asked_command

-- The answer 0x05DC is 1500, so the pressure is 1 as a whole number, and the temperature 93.
handle_telegram-published_example :
    (handle_telegram whole_numbers lists
        (setup whole_numbers lists heating)
        (config_answer 0x03 0x08 (0x02 ∷ 0x00 ∷ []) 0xDC 0x05 0x11)
      ≡ published water_pressure 1 ∷ [])
    × (handle_telegram whole_numbers lists
          (setup whole_numbers lists heating)
          (config_answer 0x03 0x08 (0x3E ∷ 0x00 ∷ []) 0xDC 0x05 0x11)
        ≡ published disp_room_temp 93 ∷ [])
handle_telegram-published_example =
    handle_telegram-published whole_numbers lists heating 0x03 0x08 0xDC 0x05 0x11 refl
      (omega arith) (omega arith) (omega arith)
