-- ===== src/Ebus/Heard.antt =====
-- What a listener makes of the reply that `handle_response_` of esphome/components/ebus/ebus.cpp
-- sends.
use mathlib.Core.List.{append-nil}
use esphome.Prelude.{
  ℕ, ◌≤◌, ◌<◌, ◌≡◌, refl, sym, ap, ◌∙◌, true, false, ◌==◌, List, [], ◌∷◌, ◌++◌, length, some, arith,
}
use esphome.Elf.{crc8_array}
use esphome.Telegram.{
  wait_for_request_ack, wait_for_response_data, wait_for_response_ack, ack, is_response_expected,
  is_finished,
}
use esphome.Telegram.Received.{Telegram, is_response_valid, to_state}
use esphome.Telegram.Frame.{request_of}
use esphome.Ebus.{wire_bytes, send_reply}
use esphome.Ebus.Process.{unescape}
use esphome.Ebus.Receive.{receive_char, receive_in, after_request_ack}
use esphome.Ebus.Receiver.{receive_step, fresh_telegram}
use esphome.Ebus.Reception.{telegram_of}
use esphome.Ebus.Wire.{receive_bytes, wire, wire-append}
use esphome.Ebus.Response.{answering, receive_bytes-response, is_response_valid-answering}
use esphome.Ebus.Sending.{on_wire}
use esphome.Ebus.Replies.{send_reply-answer}

receive_bytes-ack :
    (request rest : List ℕ) (request_crc : ℕ)
    → is_response_expected (request_of wait_for_request_ack request request_crc) ≡ true
    → receive_bytes (ack ∷ rest) false (telegram_of wait_for_request_ack request request_crc)
      ≡ receive_bytes rest false (answering wait_for_response_data request request_crc [] 0)
unfolding receive_step fresh_telegram unescape receive_char receive_in after_request_ack to_state
    is_finished
receive_bytes-ack request rest request_crc expected = rw expected refl

length-wire : (n : ℕ) → n ≤ 15 → wire_bytes n true ≡ n ∷ []
unfolding wire_bytes
length-wire n h = ground arith

-- The bytes of a reply as another driver's telegram has them.
pub record ReplyIsHeard (request : List ℕ) (request_crc : ℕ) (reply : List ℕ) : Type 0 where
  pub heard :
      receive_bytes
        (on_wire (send_reply reply))
        false
        (telegram_of wait_for_request_ack request request_crc)
      ≡ some (
        false,
        answering wait_for_response_ack request request_crc
            (length reply ∷ (reply ++ crc8_array (length reply ∷ wire reply) ∷ []))
            (crc8_array (length reply ∷ reply)),
      )
  pub valid :
      is_response_valid (
        answering wait_for_response_ack request request_crc
          (length reply ∷ (reply ++ crc8_array (length reply ∷ wire reply) ∷ []))
          (crc8_array (length reply ∷ reply)))
      ≡ (crc8_array (length reply ∷ wire reply) == crc8_array (length reply ∷ reply))

-- A listener that has heard an acknowledged request, to which a response is expected, takes the
-- bytes of a reply of 1 to 15 bytes as the response with the same data. It is valid exactly if
-- the CRC over the escaped bytes, which is sent, equals that over the bytes themselves.
pub answer-ReplyIsHeard :
    (request reply : List ℕ) (request_crc : ℕ)
    → is_response_expected (request_of wait_for_request_ack request request_crc) ≡ true
    → 0 < length reply
    → length reply ≤ 15
    → ReplyIsHeard request request_crc reply
answer-ReplyIsHeard request reply request_crc expected some_bytes few = record {
  heard =
      ap (λ bytes. receive_bytes bytes false (telegram_of wait_for_request_ack request request_crc))
        (send_reply-answer reply some_bytes (omega arith))
      ∙ receive_bytes-ack request (length reply ∷ (wire reply ++ wire_bytes crc true)) request_crc
          expected
      ∙ ap (λ bytes. receive_bytes bytes false start) in_wire
      ∙ receive_bytes-response request request_crc crc reply few;
  valid = is_response_valid-answering request request_crc crc reply few;
}
  where
    crc : ℕ
    crc = crc8_array (length reply ∷ wire reply)

    start : Telegram
    start = answering wait_for_response_data request request_crc [] 0

    in_wire :
        length reply ∷ (wire reply ++ wire_bytes crc true)
        ≡ wire (length reply ∷ (reply ++ crc ∷ []))
    in_wire =
        rw (length-wire (length reply) few, wire-append reply (crc ∷ []))
          (sym (ap (λ end. length reply ∷ (wire reply ++ end)) (append-nil (wire_bytes crc true))))
