-- ===== src/Ebus/Replies.antt =====
-- `handle_response_` of esphome/components/ebus/ebus.cpp: what a request to our secondary address is
-- answered.
use mathlib.Core.List.{append_assoc, append-nil}
use esphome.Prelude.{
  ℕ, ◌<◌, ◌≤◌, ◌≡◌, ◌≢◌, ◌⊎◌, inl, inr, refl, sym, ap, ◌∙◌, Bool-cases, true, false, ◌==◌, ltb,
  ◌||◌, not, u8, List, [], ◌∷◌, ◌++◌, length, arith,
}
use esphome.Elf.{crc8_calc, to_secondary, crc8_array, crc8_from}
use esphome.Telegram.{ack, nack, response_buffer_size, wait_for_request_ack, same_state, get_zz}
use esphome.Telegram.Received.{Telegram, is_request_valid}
use esphome.Ebus.{
  Ebus, wire_bytes, buffer_crc, uart_send_char, find_reply, send_reply_bytes, send_reply,
  handle_response,
}
use esphome.Ebus.Wire.{wire}
use esphome.Ebus.Sending.{on_wire}

-- The reply of the first handler that has one, and no bytes if none has.
pub data FirstReply (t : Telegram) : List (Telegram → List ℕ) → List ℕ → Type 0 where
  none_left : FirstReply t [] []
  answers :
      {handler : Telegram → List ℕ} {rest : List (Telegram → List ℕ)}
      → 0 < length (handler t)
      → FirstReply t (handler ∷ rest) (handler t)
  passes :
      {handler : Telegram → List ℕ} {rest : List (Telegram → List ℕ)} {reply : List ℕ}
      → length (handler t) ≡ 0
      → FirstReply t rest reply
      → FirstReply t (handler ∷ rest) reply

find_reply-FirstReply :
    (t : Telegram) (handlers : List (Telegram → List ℕ))
    → FirstReply t handlers (find_reply handlers t)
unfolding find_reply
find_reply-FirstReply t [] = none_left
find_reply-FirstReply t (handler ∷ rest) = elim (Bool-cases (length (handler t) == 0)) [
  | inl e ↦ rw (e) (passes (ground arith) (find_reply-FirstReply t rest))
  | inr e ↦ rw (e) (answers (ground arith))
]

buffer_crc-append :
    (xs ys : List ℕ) (crc : ℕ) → buffer_crc (xs ++ ys) crc ≡ buffer_crc ys (buffer_crc xs crc)
unfolding buffer_crc
buffer_crc-append [] ys crc = refl
buffer_crc-append (x ∷ xs) ys crc = buffer_crc-append xs ys (crc8_calc x crc)

-- The bytes of a reply go out escaped, and then the CRC over them as they went out.
send_reply_bytes-on_wire :
    (reply : List ℕ) (crc : ℕ)
    → on_wire (send_reply_bytes reply crc)
      ≡ wire reply ++ wire_bytes (buffer_crc (wire reply) crc) true
unfolding send_reply_bytes uart_send_char buffer_crc
send_reply_bytes-on_wire [] crc = append-nil (wire_bytes crc true)
send_reply_bytes-on_wire (byte ∷ rest) crc =
    ap (◌++◌ (wire_bytes byte true)) (
      send_reply_bytes-on_wire rest (buffer_crc (wire_bytes byte true) crc)
      ∙ ap (λ c. wire rest ++ wire_bytes c true)
          (sym (buffer_crc-append (wire_bytes byte true) (wire rest) crc)))
    ∙ sym (append_assoc (wire_bytes byte true) (wire rest) _)

buffer_crc-from : (xs : List ℕ) (crc : ℕ) → buffer_crc xs crc ≡ crc8_from crc xs
unfolding buffer_crc crc8_from
buffer_crc-from [] crc = refl
buffer_crc-from (x ∷ xs) crc = buffer_crc-from xs (crc8_calc x crc)

-- The answer that carries a reply: its CRC is over the length and the bytes as they go out.
abbrev pub answer : List ℕ → List ℕ
answer reply =
    ack ∷ length reply ∷ wire reply ++ wire_bytes (crc8_array (length reply ∷ wire reply)) true

length-on_wire : (n : ℕ) → n ≤ response_buffer_size → wire_bytes (u8 n) true ≡ n ∷ []
unfolding wire_bytes
length-on_wire n h = ground arith

sends_nack :
    (reply : List ℕ)
    → (length reply ≡ 0) ⊎ (response_buffer_size < length reply)
    → (length reply == 0 || ltb response_buffer_size (length reply)) ≡ true
sends_nack reply h = ground arith

sends_answer :
    (reply : List ℕ)
    → 0 < length reply
    → length reply ≤ response_buffer_size
    → (length reply == 0 || ltb response_buffer_size (length reply)) ≡ false
sends_answer reply some_bytes few = ground arith

pub send_reply-answer :
    (reply : List ℕ)
    → 0 < length reply
    → length reply ≤ response_buffer_size
    → on_wire (send_reply reply) ≡ answer reply
unfolding send_reply crc8_array crc8_from uart_send_char
send_reply-answer reply some_bytes few =
    let small : u8 (length reply) ≡ length reply = omega arith in
    rw
      (
        sends_answer reply some_bytes few,
        length-on_wire (length reply) few,
        small,
        sym (buffer_crc-from (wire reply) (crc8_calc (length reply) 0)),
      )
      (ap (λ bytes. ack ∷ length reply ∷ bytes)
        (send_reply_bytes-on_wire reply (crc8_calc (length reply) 0)))

send_reply-nack :
    (reply : List ℕ)
    → (length reply ≡ 0) ⊎ (response_buffer_size < length reply)
    → on_wire (send_reply reply) ≡ nack ∷ []
unfolding send_reply uart_send_char wire_bytes
send_reply-nack reply h = rw (sends_nack reply h) refl

-- What goes out on the wire for a telegram.
pub data Responds (e : Ebus) (t : Telegram) : List ℕ → Type 0 where
  not_for_us :
      (t.state ≢ wait_for_request_ack) ⊎ (get_zz t.base ≢ to_secondary e.primary_address)
      → Responds e t []
  invalid :
      t.state ≡ wait_for_request_ack
      → get_zz t.base ≡ to_secondary e.primary_address
      → is_request_valid t ≡ false
      → Responds e t (nack ∷ [])
  unanswered :
      {reply : List ℕ}
      → t.state ≡ wait_for_request_ack
      → get_zz t.base ≡ to_secondary e.primary_address
      → is_request_valid t ≡ true
      → FirstReply t e.send_response_handlers reply
      → (length reply ≡ 0) ⊎ (response_buffer_size < length reply)
      → Responds e t (nack ∷ [])
  answered :
      {reply : List ℕ}
      → t.state ≡ wait_for_request_ack
      → get_zz t.base ≡ to_secondary e.primary_address
      → is_request_valid t ≡ true
      → FirstReply t e.send_response_handlers reply
      → 0 < length reply
      → length reply ≤ response_buffer_size
      → Responds e t (answer reply)

reply_size :
    (n : ℕ) → ((n ≡ 0) ⊎ (response_buffer_size < n)) ⊎ ((0 < n) × (n ≤ response_buffer_size))
reply_size n = ground arith

asked :
    (e : Ebus) (t : Telegram)
    → t.state ≡ wait_for_request_ack
    → get_zz t.base ≡ to_secondary e.primary_address
    → is_request_valid t ≡ true
    → Responds e t (on_wire (send_reply (find_reply e.send_response_handlers t)))
asked e t s z v =
    let reply : List ℕ = find_reply e.send_response_handlers t in
    let first = find_reply-FirstReply t e.send_response_handlers in
    elim (reply_size (length reply)) [
      | inl bad ↦ rw (send_reply-nack reply bad) (unanswered s z v first bad)
      | inr good ↦ rw (send_reply-answer reply good.0 good.1) (answered s z v first good.0 good.1)
    ]

-- A telegram that is no request to our secondary address, or is not complete, is not answered; one
-- whose CRC is wrong, or for which the first handler with a reply gives more bytes than a response
-- holds, or for which none has a reply, gets a NACK; any other gets an ACK, the length, the reply,
-- escaped, and the CRC over these bytes as they go out.
pub handle_response-Responds :
    (e : Ebus) (t : Telegram) → Responds e t (on_wire (handle_response e t))
unfolding handle_response uart_send_char wire_bytes
handle_response-Responds e t =
    elim (Bool-cases (
      not (same_state t.state wait_for_request_ack)
      || not (get_zz t.base == to_secondary e.primary_address))) [
        | inl other ↦ rw (other) (not_for_us (ground arith))
        | inr ours ↦ rw (ours) (elim (Bool-cases (is_request_valid t)) [
          | inl v ↦ rw (v) (asked e t (ground arith) (ground arith) v)
          | inr v ↦ rw (v) (invalid (ground arith) (ground arith) v)
        ])
      ]
