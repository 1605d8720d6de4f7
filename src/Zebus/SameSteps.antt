-- ===== src/Zebus/SameSteps.antt =====
-- The two drivers' steps on a byte that is not ESC, up to the replies.
use esphome.Prelude.{
  ℕ, zero, suc, ◌+◌, ◌≤◌, ◌≡◌, ◌≢◌, refl, false, List, ◌++◌, map, length, drop, Option, some, none,
  arith, All,
}
use esphome.Elf.{get_priority_class}
use esphome.Telegram.{
  TelegramState, wait_for_syn, wait_for_send, wait_for_arbitration, wait_for_arbitration_2nd,
  wait_for_command_ack, wait_for_request_data, wait_for_request_ack, wait_for_response_data,
  wait_for_response_ack, esc, response_buffer_size, get_qq, get_zz, get_nn, get_pb, get_sb,
  get_request_byte, is_finished,
}
use esphome.Telegram.Received.{Telegram, new_telegram}
use esphome.Telegram.Command.{SendCommand, get_crc}
use esphome.Ebus.{
  Ebus, Effect, uart_send_char, uart_send_char_as, send_request_bytes,
  uart_send_remaining_request_part,
}
use esphome.Ebus.Receive.{
  receive_in, receive_char, push_request_byte, push_response_byte, after_request, after_request_ack,
}
use esphome.Ebus.Active.{advance_in, send_command_rest}
use esphome.Ebus.Process.{prepare, track_syn, flush_telegram, fetch_command, acknowledge}
use esphome.Zebus.Elf.{to_slave}
use esphome.Zebus.Driver.{
  Ebus as OldEbus, Handler, ask_handlers, send_answer, send_buffer, send_char, send_char_crc,
  sent_bytes, sent_crc, send_data_bytes, send_remaining_request_part,
  handle_response as handle_response',
}
use esphome.Zebus.Receive.{
  receive_byte, receive_byte_in, store_request_byte, store_response_byte, request_acknowledged,
}
use esphome.Zebus.Active.{drive_in, win}
use esphome.Zebus.Process.{
  before_switches, count_syn, hand_over_telegram, next_active, acknowledge_response,
}
use esphome.Zebus.Same.{
  same_is_request_complete, same_is_response_complete, same_is_response_valid, same_is_ack_expected,
  same_is_response_expected, same_push_request, same_push_response,
}

-- A handler that writes its reply into the buffer.
unfoldable pub into_buffer : (Telegram → List ℕ) → Handler
into_buffer handler telegram buffer =
    (length (handler telegram), handler telegram ++ drop (length (handler telegram)) buffer)

-- The earlier driver in the same situation.
unfoldable pub earlier : Ebus → OldEbus
earlier e = record {
  master_address = e.primary_address;
  max_tries = e.max_tries;
  max_lock_counter = e.max_lock_counter;
  lock_counter = e.lock_counter;
  char_count_since_last_syn = e.char_count_since_last_syn;
  state = e.state;
  receiving_telegram = e.receiving_telegram;
  active_command = e.active_command;
  send_response_handlers = map into_buffer e.send_response_handlers;
  queues_received_telegrams = e.queues_received_telegrams;
}

-- No handler's reply is longer than the buffer.
abbrev pub RepliesFit : List (Telegram → List ℕ) → Telegram → Type 0
RepliesFit handlers t = All (λ handler. length (handler t) ≤ response_buffer_size) handlers

module _ (received : ℕ) (other : received ≢ esc) (t : Telegram)
    (open' : t.wait_for_escaped_char ≡ false) where
  same_store_request_byte : store_request_byte received t ≡ push_request_byte received t
  unfolding store_request_byte push_request_byte after_request
  same_store_request_byte =
      simp
        (same_push_request received t other open', same_is_request_complete, same_is_ack_expected)

  same_store_response_byte : store_response_byte received t ≡ push_response_byte received t
  unfolding store_response_byte push_response_byte
  same_store_response_byte =
      simp (same_push_response received t other open', same_is_response_complete)

  same_receive_in :
      (s : TelegramState) → receive_byte_in s received t ≡ receive_in s received received t
  unfolding receive_byte_in receive_in request_acknowledged after_request_ack
      esphome.Zebus.Telegram.get_zz get_zz
  same_receive_in wait_for_syn = refl
  same_receive_in wait_for_arbitration = rw (same_push_request received t other open')
  same_receive_in wait_for_request_data = rw same_store_request_byte
  same_receive_in wait_for_request_ack = rw (same_is_response_expected t.base)
  same_receive_in wait_for_response_data = rw same_store_response_byte
  same_receive_in wait_for_response_ack = refl
  same_receive_in s = refl

  pub same_receive_char : receive_byte received t ≡ receive_char received received t
  unfolding receive_byte receive_char
  same_receive_char = same_receive_in t.state

-- A result of the later driver, as one of the earlier.
abbrev pub earlier_result : Ebus × List Effect → OldEbus × List Effect
earlier_result r = (earlier r.0, r.1)

same_send_data_bytes :
    (command : SendCommand) (left i : ℕ)
    → send_data_bytes command left i ≡ send_request_bytes command left i
unfolding send_data_bytes send_request_bytes send_char uart_send_char get_request_byte
    esphome.Zebus.Telegram.get_request_byte
same_send_data_bytes command zero i = refl
same_send_data_bytes command (suc left) i = rw (same_send_data_bytes command left (i + 1))

same_request_part :
    (command : SendCommand)
    → send_remaining_request_part command ≡ uart_send_remaining_request_part command
unfolding send_remaining_request_part uart_send_remaining_request_part send_char uart_send_char
    get_zz get_nn get_pb get_sb get_crc esphome.Zebus.Telegram.get_zz esphome.Zebus.Telegram.get_pb
    esphome.Zebus.Telegram.get_sb esphome.Zebus.Telegram.get_nn esphome.Zebus.SendCommand.get_crc
same_request_part command = rw (same_send_data_bytes command (get_nn command.base) 0)

same_win : (e : Ebus) → win (earlier e) ≡ earlier_result (send_command_rest e)
unfolding win send_command_rest earlier
same_win e =
    rw (same_is_ack_expected e.active_command.base, same_request_part e.active_command)
      (ground arith)

pub same_advance_in :
    (s : TelegramState) (received : ℕ) (e : Ebus)
    → drive_in s received (earlier e) ≡ earlier_result (advance_in s received e)
unfolding drive_in advance_in earlier send_char uart_send_char get_qq esphome.Zebus.Telegram.get_qq
    get_priority_class esphome.Zebus.Elf.get_priority_class
same_advance_in wait_for_send received e = ground arith
same_advance_in wait_for_arbitration received e = ground (arith, same_win e)
same_advance_in wait_for_arbitration_2nd received e = ground (arith, same_win e)
same_advance_in wait_for_command_ack received e = ground arith
same_advance_in s received e = refl

same_track_syn :
    (received : ℕ) (e : Ebus) → count_syn received (earlier e) ≡ earlier (track_syn received e)
unfolding count_syn track_syn earlier
same_track_syn received e = ground arith

same_flush_telegram :
    (e : Ebus) → hand_over_telegram (earlier e) ≡ earlier_result (flush_telegram e)
unfolding hand_over_telegram flush_telegram earlier is_finished esphome.Zebus.Telegram.is_finished
    esphome.Zebus.Telegram.initial_telegram new_telegram
same_flush_telegram e = ground arith

same_fetch_command :
    (dequeue : Option (Option SendCommand)) (e : Ebus)
    → next_active dequeue (earlier e) ≡ earlier_result (fetch_command dequeue e)
unfolding next_active fetch_command earlier is_finished esphome.Zebus.Telegram.is_finished
same_fetch_command none e = refl
same_fetch_command (some none) e = ground arith
same_fetch_command (some (some c)) e = ground arith

pub same_prepare :
    (dequeue : Option (Option SendCommand)) (received : ℕ) (e : Ebus)
    → before_switches dequeue received (earlier e) ≡ earlier_result (prepare dequeue received e)
unfolding before_switches prepare
same_prepare dequeue received e = rw (
  same_track_syn received e,
  same_flush_telegram (track_syn received e),
  same_fetch_command dequeue (flush_telegram (track_syn received e)).0,
)

pub same_acknowledge : (e : Ebus) → acknowledge_response (earlier e) ≡ acknowledge e
unfolding acknowledge_response acknowledge earlier send_char uart_send_char get_qq
    esphome.Zebus.Telegram.get_qq esphome.Zebus.Driver.send_char_as uart_send_char_as
same_acknowledge e = rw (same_is_response_valid e.receiving_telegram)
