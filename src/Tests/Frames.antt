-- ===== src/Tests/Frames.antt =====
-- CRC, addresses and requests at concrete inputs.
use esphome.Prelude.{
  ℕ, ◌*◌, ◌<◌, bit_xor, ◌≡◌, ◌≢◌, ◌↔◌, ◌⊎◌, inl, inr, refl, false, ◌&&◌, ◌==◌, if◌then◌else◌, List,
  [], ◌∷◌, ◌++◌, some, none, arith,
}
use esphome.Elf.{crc8_calc, crc8_array, is_primary, to_secondary}
use esphome.Elf.Crc.{remainder, crc8_calc-remainder, crc8_array-ne_of_corrupted}
use esphome.Elf.Address.{is_ones, is_primary-is_ones, to_secondary-not-primary, to_secondary-eq_iff}
use esphome.Telegram.{
  wait_for_response_data, wait_for_response_ack, is_response_expected, wait_for_send,
  wait_for_request_ack, end_completed, end_arbitration, broadcast_address, syn, is_finished,
}
use esphome.Telegram.Received.{Telegram, is_request_valid, is_response_valid}
use esphome.Telegram.Command.{send_command}
use esphome.Telegram.Frame.{request_of}
use esphome.Telegram.Sent.{request_body, request_frame, send_command-frame, send_command_overflow}
use esphome.Ebus.Reception.{telegram_of, receive_bytes-request, is_request_valid-telegram_of}
use esphome.Ebus.Wire.{receive_bytes, wire}
use esphome.Ebus.{wire_bytes}
use esphome.Ebus.Response.{answering, receive_bytes-response, is_response_valid-answering}
use esphome.Ebus.Heard.{ReplyIsHeard, answer-ReplyIsHeard}
use esphome.Ebus.Sending.{IsHeard, command_of, send_command-IsHeard}

abbrev read_pressure : List ℕ
read_pressure = 0x0D ∷ 0x02 ∷ 0xA9 ∷ []

abbrev too_long : List ℕ
too_long = 1 ∷ 2 ∷ 3 ∷ 4 ∷ 5 ∷ 6 ∷ 7 ∷ 8 ∷ 9 ∷ 10 ∷ 11 ∷ 12 ∷ 13 ∷ 14 ∷ 15 ∷ 16 ∷ 17 ∷ []

crc8_run : crc8_array (request_body 0x10 0x08 0xB5 0x09 read_pressure) ≡ 137
unfolding crc8_array crc8_calc
crc8_run = refl

crc8_calc-remainder_example : crc8_calc 0x10 0x80 ≡ bit_xor (remainder 8 (0x80 * 256)) 0x10
crc8_calc-remainder_example = crc8_calc-remainder 0x10 0x80 (omega arith) (omega arith)

crc8_array-ne_of_corrupted_example :
    crc8_array ((0x10 ∷ []) ++ 0x08 ∷ read_pressure)
    ≢ crc8_array ((0x10 ∷ []) ++ 0x09 ∷ read_pressure)
crc8_array-ne_of_corrupted_example =
    crc8_array-ne_of_corrupted (0x10 ∷ []) read_pressure 0x08 0x09 (omega arith) (omega arith)
      (omega arith) (omega arith) (omega arith)

is_primary-is_ones_example : is_primary 0x73 ≡ (is_ones 7 && is_ones 3)
is_primary-is_ones_example = is_primary-is_ones 0x73 (omega arith)

to_secondary-not-primary_example :
    (to_secondary 0x03 < 256)
    × (is_primary (to_secondary 0x03) ≡ false)
    × (to_secondary 0x03 ≢ 0xAA)
    × (to_secondary 0x03 ≢ 0xA9)
    × (to_secondary 0x03 ≢ 0xFE)
unfolding is_primary
to_secondary-not-primary_example = to_secondary-not-primary 0x03 (omega arith) refl

to_secondary-eq_iff_example : (to_secondary 0x00 ≡ to_secondary 0xFF) ↔ (
    (◌≡◌ {A = ℕ} 0x00 0xFF)
    ⊎ ((◌≡◌ {A = ℕ} 0x00 0x00) × (◌≡◌ {A = ℕ} 0xFF 0xFF))
    ⊎ ((◌≡◌ {A = ℕ} 0x00 0xFF) × (◌≡◌ {A = ℕ} 0xFF 0x00)))
unfolding is_primary
to_secondary-eq_iff_example = to_secondary-eq_iff 0x00 0xFF (omega arith) (omega arith) refl refl

send_command-frame_example :
    send_command 0x10 0x08 0xB509 read_pressure
    ≡ some (record {
      base =
          request_of wait_for_send
            (request_frame 0x10 0x08 0xB5 0x09 read_pressure)
            (crc8_array (request_body 0x10 0x08 0xB5 0x09 read_pressure));
      tries_count = 0;
    })
send_command-frame_example = send_command-frame 0x10 0x08 0xB509 read_pressure (omega arith)

send_command_overflow_example : send_command 0x10 0x08 0xB509 too_long ≡ none
send_command_overflow_example = send_command_overflow 0x10 0x08 0xB509 too_long (omega arith)

-- What is left of a telegram that was cut off.
abbrev cut_off : Telegram
cut_off = telegram_of end_arbitration (0x10 ∷ []) 0x10

receive_bytes-request_example :
    receive_bytes
      (syn ∷ wire (request_body 0x10 0x08 0xB5 0x09 read_pressure ++ 137 ∷ []))
      false
      cut_off
    ≡ some (
      false,
      telegram_of
          (if 0x08 == broadcast_address then end_completed else wait_for_request_ack)
          (request_body 0x10 0x08 0xB5 0x09 read_pressure ++ 137 ∷ [])
          (crc8_array (request_body 0x10 0x08 0xB5 0x09 read_pressure)),
    )
receive_bytes-request_example =
    receive_bytes-request 0x10 0x08 0xB5 0x09 137 read_pressure cut_off
      (inr (inr (unfold is_finished in refl))) (omega arith)

is_request_valid-telegram_of_example :
    is_request_valid (
      telegram_of wait_for_request_ack
        (request_body 0x10 0x08 0xB5 0x09 read_pressure ++ 136 ∷ [])
        (crc8_array (request_body 0x10 0x08 0xB5 0x09 read_pressure)))
    ≡ (136 == crc8_array (request_body 0x10 0x08 0xB5 0x09 read_pressure))
is_request_valid-telegram_of_example =
    is_request_valid-telegram_of 0x10 0x08 0xB5 0x09 136 read_pressure wait_for_request_ack
      (omega arith) (inl refl)

send_command-IsHeard_example :
    IsHeard 0x08 (command_of 0x10 0x08 0xB5 0x09 read_pressure 0 wait_for_send) cut_off
send_command-IsHeard_example =
    send_command-IsHeard 0x10 0x08 0xB509 read_pressure
      (command_of 0x10 0x08 0xB5 0x09 read_pressure 0 wait_for_send) cut_off
      (inr (inr (unfold is_finished in refl))) (omega arith) (omega arith)
      send_command-frame_example

abbrev request_to_us : List ℕ
request_to_us = 0x10 ∷ 0x08 ∷ 0xB5 ∷ 0x09 ∷ 0x00 ∷ 0x00 ∷ []

receive_bytes-response_example :
    receive_bytes
      (wire (3 ∷ (read_pressure ++ 137 ∷ [])))
      false
      (answering wait_for_response_data request_to_us 0 [] 0)
    ≡ some (
      false,
      answering wait_for_response_ack request_to_us 0
          (3 ∷ (read_pressure ++ 137 ∷ []))
          (crc8_array (3 ∷ read_pressure)),
    )
receive_bytes-response_example =
    receive_bytes-response request_to_us 0 137 read_pressure (omega arith)

is_response_valid-answering_example :
    is_response_valid (
      answering wait_for_response_ack request_to_us 0
        (3 ∷ (read_pressure ++ 137 ∷ []))
        (crc8_array (3 ∷ read_pressure)))
    ≡ (137 == crc8_array (3 ∷ read_pressure))
is_response_valid-answering_example =
    is_response_valid-answering request_to_us 0 137 read_pressure (omega arith)

answer-ReplyIsHeard_example : ReplyIsHeard request_to_us 0 read_pressure
unfolding is_response_expected is_primary
answer-ReplyIsHeard_example =
    answer-ReplyIsHeard request_to_us read_pressure 0 refl (omega arith) (omega arith)

-- The ESC in this reply garbles the CRC.
garbled : (crc8_array (3 ∷ wire read_pressure) == crc8_array (3 ∷ read_pressure)) ≡ false
unfolding crc8_array crc8_calc wire_bytes
garbled = refl
