-- ===== src/Tests/Bus.antt =====
-- The driver at concrete inputs.
use esphome.Prelude.{
  ℕ, ◌≡◌, refl, true, false, List, [], ◌∷◌, ◌++◌, ◌≤◌, Option, none, some, ◌>>=◌, arith,
}
use esphome.Elf.{is_primary, to_secondary, crc8_calc}
use esphome.Telegram.{
  wait_for_syn, wait_for_arbitration, wait_for_send, wait_for_request_ack, end_arbitration,
  is_finished, is_ack_expected, get_qq,
}
use esphome.Telegram.Frame.{request_of}
use esphome.Telegram.Received.{
  Telegram, to_state, new_telegram, push_request, is_request_complete, is_request_valid,
}
use esphome.Telegram.Command.{no_command}
use esphome.Ebus.{Ebus, arbitration, normal, Effect, handle_response}
use esphome.Ebus.Process.{
  process_received_char, unescape, process_byte, prepare, fetch_command, flush_telegram, track_syn,
  finish, acknowledge,
}
use esphome.Ebus.Receive.{receive_char, push_request_byte, push_response_byte}
use esphome.Ebus.Active.{advance_command}
use esphome.Ebus.Receiver.{observe, receive_step, process_received_char_observed}
use esphome.Ebus.Invariant.{Processes, process_received_char-Processes}
use esphome.Ebus.Diagram.{Moves, receive_char-Moves}
use esphome.Ebus.Reception.{telegram_of}
use esphome.Ebus.Arbitration.{MaySend, advance_command-MaySend}
use esphome.Ebus.Retries.{attempts-le}
use esphome.Ebus.Runs.{attempts}
use esphome.Ebus.Lock.{syns, attempts-locked}
use esphome.Ebus.Attempts.{allowed_tries}
use esphome.Ebus.Replies.{Responds, handle_response-Responds}
use esphome.Ebus.Queueing.{queued, handed_at, GoesOn, process_received_char-queued}
use esphome.Ebus.Safety.{IsReceiving, new_telegram-IsReceiving}
use esphome.Ebus.Sending.{on_wire}

abbrev bus : Ebus
bus = record {
  primary_address = 0x03;
  max_tries = 2;
  max_lock_counter = 4;
  lock_counter = 0;
  char_count_since_last_syn = 0;
  in_esc = false;
  state = arbitration;
  receiving_telegram = new_telegram;
  active_command = no_command;
  send_response_handlers = (λ t. 0x42 ∷ []) ∷ [];
  queues_received_telegrams = true;
}

feed : List ℕ → Ebus → List Effect → Option (Ebus × List Effect)
unfolding process_received_char unescape process_byte prepare fetch_command flush_telegram track_syn
    finish acknowledge receive_char push_request_byte push_response_byte advance_command is_primary
    to_secondary crc8_calc is_finished is_ack_expected push_request is_request_complete
    is_request_valid handle_response get_qq no_command new_telegram
feed [] e out = some (e, out)
feed (b ∷ bs) e out = do (e', more) ← process_received_char none b e; feed bs e' (out ++ more)

sent : Option (Ebus × List Effect) → List ℕ
sent none = []
sent (some (e, out)) = on_wire out

-- A request to the secondary address 0x08, with an escaped ESC among its data, is answered.
answered :
    sent
      (feed (0xAA ∷ 0x10 ∷ 0x08 ∷ 0xB5 ∷ 0x09 ∷ 0x03 ∷ 0x0D ∷ 0x02 ∷ 0xA9 ∷ 0x00 ∷ 137 ∷ []) bus [])
    ≡ 0x00 ∷ 0x01 ∷ 0x42 ∷ 217 ∷ []
unfolding sent feed
answered = refl

process_received_char_observed_example :
    observe (process_received_char none 0xAA bus) ≡ receive_step false new_telegram 0xAA
process_received_char_observed_example = process_received_char_observed none 0xAA bus

process_received_char-Processes_example : Processes (process_received_char none 0xAA bus)
process_received_char-Processes_example =
    process_received_char-Processes none 0xAA bus (omega arith) new_telegram-IsReceiving

abbrev frame : List ℕ
frame = 0x10 ∷ 0x08 ∷ 0xB5 ∷ 0x09 ∷ 0x03 ∷ 0x0D ∷ 0x02 ∷ 0xA9 ∷ 137 ∷ []

-- The driver with a command to send.
abbrev waiting : Ebus
waiting = record bus {
  state = normal;
  active_command = record { base = request_of wait_for_send frame 137; tries_count = 0 };
}

-- A request that waits to be acknowledged.
abbrev asking : Telegram
asking = telegram_of wait_for_request_ack frame 137

-- The driver behind a telegram that was cut off.
abbrev cut_off : Ebus
cut_off = record bus { receiving_telegram = telegram_of end_arbitration (0x10 ∷ []) 0x10 }

cut_off-IsReceiving : IsReceiving cut_off.receiving_telegram
cut_off-IsReceiving = record { request = ground arith; response = ground arith; fits = tt }

receive_char-Moves_example :
    Moves 0xAA new_telegram
      (to_state wait_for_arbitration new_telegram)
      wait_for_syn
      wait_for_arbitration
unfolding new_telegram receive_char to_state
receive_char-Moves_example =
    receive_char-Moves 0xAA 0xAA new_telegram (to_state wait_for_arbitration new_telegram) refl

advance_command-MaySend_example : MaySend 0xAA waiting (advance_command 0xAA waiting).1
advance_command-MaySend_example = advance_command-MaySend 0xAA waiting

-- Another address of lower rank wins every time.
attempts-le_example : attempts (0xAA ∷ 0x10 ∷ 0xAA ∷ 0x10 ∷ 0xAA ∷ []) waiting ≤ 3
unfolding allowed_tries
attempts-le_example = attempts-le (0xAA ∷ 0x10 ∷ 0xAA ∷ 0x10 ∷ 0xAA ∷ []) waiting

handle_response-Responds_example : Responds bus asking (on_wire (handle_response bus asking))
handle_response-Responds_example = handle_response-Responds bus asking

process_received_char-queued_example :
    (next : Ebus) × (effects : List Effect) × (process_received_char none 0xAA cut_off
      ≡ some (next, effects))
    × (queued effects ≡ handed_at (unescape false 0xAA) cut_off)
    × GoesOn (unescape false 0xAA) 0xAA cut_off.receiving_telegram next.receiving_telegram
process_received_char-queued_example =
    process_received_char-queued none 0xAA cut_off (omega arith) cut_off-IsReceiving

-- The lock is taken for four times SYN.
attempts-locked_example :
    attempts (0xAA ∷ 0x10 ∷ 0xAA ∷ []) (record waiting { lock_counter = 4 }) ≡ 0
unfolding syns
attempts-locked_example =
    attempts-locked (0xAA ∷ 0x10 ∷ 0xAA ∷ []) (record waiting { lock_counter = 4 }) refl
      (omega arith)
