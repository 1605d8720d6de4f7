-- ===== src/Zebus/SameReplies.antt =====
-- The two drivers' replies, where they fit the buffer.
use esphome.Prelude.{
  ℕ, ◌≤◌, ◌≡◌, refl, Bool-cases, inl, inr, true, ◌==◌, u8, List, [], ◌∷◌, ◌++◌, map, length, drop,
  replicate, some, arith,
}
use esphome.Elf.{crc8_calc}
use esphome.Telegram.{response_buffer_size, get_zz}
use esphome.Telegram.Received.{Telegram}
use esphome.Ebus.{
  Ebus, find_reply, send_reply, send_reply_bytes, handle_response, uart_send_char,
  uart_send_char_crc, wire_bytes, buffer_crc,
}
use esphome.Zebus.Driver.{
  ask_handlers, send_answer, send_buffer, send_char, send_char_crc, sent_bytes, sent_crc,
  handle_response as handle_response',
}
use esphome.Zebus.Same.{same_crc8_calc, same_elf, same_is_request_valid}
use esphome.Zebus.SameSteps.{into_buffer, earlier, RepliesFit}

-- The first reply, in the buffer.
ask_handlers-find_reply :
    (handlers : List (Telegram → List ℕ)) (t : Telegram) (buffer : List ℕ)
    → (rest : List ℕ) × (ask_handlers (map into_buffer handlers) t buffer
        ≡ (length (find_reply handlers t), find_reply handlers t ++ rest))
unfolding ask_handlers find_reply into_buffer
ask_handlers-find_reply [] t buffer = (buffer, refl)
ask_handlers-find_reply (handler ∷ handlers) t buffer =
    elim (Bool-cases (length (handler t) == 0)) [
      | inl e ↦
          rw (e)
            (ask_handlers-find_reply handlers t (handler t ++ drop (length (handler t)) buffer))
      | inr e ↦ rw (e) (drop (length (handler t)) buffer, refl)
    ]

pub find_reply-RepliesFit :
    (handlers : List (Telegram → List ℕ)) (t : Telegram)
    → RepliesFit handlers t
    → length (find_reply handlers t) ≤ response_buffer_size
unfolding find_reply
find_reply-RepliesFit [] t fits = omega arith
find_reply-RepliesFit (handler ∷ handlers) t fits =
    ground (arith, find_reply-RepliesFit handlers t fits.1)

same_sent_crc : (bytes : List ℕ) (crc : ℕ) → sent_crc bytes crc ≡ buffer_crc bytes crc
unfolding sent_crc buffer_crc
same_sent_crc [] crc = refl
same_sent_crc (byte ∷ rest) crc =
    rw (same_crc8_calc byte crc) (same_sent_crc rest (crc8_calc byte crc))

send_buffer-reply :
    (reply rest : List ℕ) (crc : ℕ)
    → send_buffer (length reply) (reply ++ rest) crc ≡ some (send_reply_bytes reply crc)
unfolding send_buffer send_reply_bytes send_char uart_send_char send_char_crc uart_send_char_crc
    sent_bytes wire_bytes
send_buffer-reply [] rest crc = refl
send_buffer-reply (byte ∷ reply) rest crc = rw (
  same_sent_crc (wire_bytes byte true) crc,
  send_buffer-reply reply rest (buffer_crc (wire_bytes byte true) crc),
)

pub same_send_answer :
    (reply rest : List ℕ)
    → length reply ≤ response_buffer_size
    → send_answer (length reply, reply ++ rest) ≡ some (send_reply reply)
unfolding send_answer send_reply send_char uart_send_char
same_send_answer reply rest fits =
    let small : u8 (length reply) ≡ length reply = omega arith in
    rw
      (
        small,
        same_crc8_calc (length reply) 0,
        send_buffer-reply reply rest (crc8_calc (length reply) 0),
      )
      (ground arith)

pub same_handle_response :
    (e : Ebus) (t : Telegram)
    → RepliesFit e.send_response_handlers t
    → handle_response' (earlier e) t ≡ some (handle_response e t)
unfolding handle_response' handle_response earlier send_char uart_send_char get_zz
    esphome.Zebus.Telegram.get_zz
same_handle_response e t fits =
    let (rest, asked) =
      ask_handlers-find_reply e.send_response_handlers t (replicate response_buffer_size 0) in
    rw
      (
        same_is_request_valid t,
        (same_elf [] e.primary_address).1,
        asked,
        same_send_answer (find_reply e.send_response_handlers t) rest
            (find_reply-RepliesFit e.send_response_handlers t fits),
      )
      (ground arith)
