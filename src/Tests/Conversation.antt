-- ===== src/Tests/Conversation.antt =====
-- A conversation of two drivers at a concrete input.
use esphome.Prelude.{ℕ, ◌/◌, ◌^◌, ◌≡◌, ◌≢◌, refl, true, false, bit_and, u8, List, [], ◌∷◌, arith}
use esphome.Elf.{is_primary, to_secondary, crc8_array}
use esphome.Telegram.{wait_for_send, syn}
use esphome.Telegram.Received.{new_telegram}
use esphome.Telegram.Command.{SendCommand, no_command}
use esphome.Telegram.Sent.{request_frame, send_command-frame}
use esphome.Item.{reply}
use esphome.Ebus.{Ebus, normal, find_reply}
use esphome.Ebus.Wire.{wire}
use esphome.Ebus.Sending.{command_of}
use esphome.Ebus.Bus.{converse}
use esphome.Ebus.Asking.{IsCaller, IsIdle}
use esphome.Ebus.Conversation.{Converses, converse-Converses, question}

-- The question for the configuration, to the participant 0x03.
abbrev asks_config : SendCommand
asks_config =
    command_of 0x10 (to_secondary 0x03) (u8 (0xB509 / 2 ^ 8)) (bit_and 0xB509 0xFF) (0x0D ∷ []) 0
      wait_for_send

abbrev idle_driver : ℕ → Ebus
idle_driver address = record {
  primary_address = address;
  max_tries = 2;
  max_lock_counter = 4;
  lock_counter = 0;
  char_count_since_last_syn = 0;
  in_esc = false;
  state = normal;
  receiving_telegram = new_telegram;
  active_command = no_command;
  send_response_handlers = reply ∷ [];
  queues_received_telegrams = true;
}

abbrev caller : Ebus
caller = record (idle_driver 0x10) { active_command = asks_config }

caller-IsCaller : IsCaller asks_config caller
caller-IsCaller = record {
  command = refl;
  low = omega arith;
  quiet = omega arith;
  fresh = (refl, refl);
  queues = refl;
}

callee-IsIdle : IsIdle (idle_driver 0x03)
unfolding no_command
callee-IsIdle = record { done = refl; fresh = (refl, refl); queues = refl }

apart : to_secondary 0x03 ≢ to_secondary 0x10
unfolding to_secondary is_primary
apart = omega arith

caller_primary : is_primary 0x10 ≡ true
unfolding is_primary
caller_primary = refl

callee_primary : is_primary 0x03 ≡ true
unfolding is_primary
callee_primary = refl

abbrev identification : List ℕ
identification = 0xe3 ∷ b'E' ∷ b'S' ∷ b'P' ∷ b'H' ∷ b'M' ∷ 0x12 ∷ 0x34 ∷ 0x56 ∷ 0x78 ∷ []

first_reply :
    find_reply (reply ∷ []) (question 0x10 (to_secondary 0x03) 0xB509 (0x0D ∷ [])) ≡ identification
unfolding find_reply reply
first_reply = refl

same_crc : crc8_array (10 ∷ wire identification) ≡ crc8_array (10 ∷ identification)
unfolding esphome.Ebus.wire_bytes
same_crc = refl

converse-Converses_example :
    Converses asks_config
      (request_frame 0x10
        (to_secondary 0x03)
        (u8 (0xB509 / 2 ^ 8))
        (bit_and 0xB509 0xFF)
        (0x0D ∷ []))
      identification
      (question 0x10 (to_secondary 0x03) 0xB509 (0x0D ∷ []))
      (converse 100 (syn ∷ []) caller (idle_driver 0x03))
converse-Converses_example =
    converse-Converses caller (idle_driver 0x03) asks_config 0xB509 (0x0D ∷ []) identification 100
      (omega arith) (omega arith) (omega arith, tt) caller_primary (omega arith) callee_primary
      apart (send_command-frame 0x10 (to_secondary 0x03) 0xB509 (0x0D ∷ []) (omega arith))
      caller-IsCaller callee-IsIdle first_reply (omega arith) (omega arith) same_crc
