-- ===== src/Ebus/Queueing.antt =====
-- Which telegrams `process_received_char` of esphome/components/ebus/ebus.cpp hands to the callback
-- `queue_received_telegram_`.
use mathlib.Core.List.{append-nil}
use esphome.Prelude.{
  ℕ, zero, suc, ◌+◌, ◌<◌, ◌≡◌, refl, ap, sym, subst, ◌∙◌, Bool, false, ◌&&◌, if◌then◌else◌, Option,
  some, none, ◌>>=◌, List, [], ◌∷◌, ◌++◌, arith, u8, length,
}
use esphome.Elf.{crc8_calc}
use esphome.Telegram.{
  TelegramState, wait_for_send, wait_for_arbitration, wait_for_arbitration_2nd,
  wait_for_command_ack, is_finished, get_nn,
}
use esphome.Telegram.Received.{Telegram, new_telegram}
use esphome.Telegram.Command.{SendCommand}
use esphome.Ebus.{
  Ebus, Effect, uart_send, queue_received_telegram, dequeue_command, send_request_bytes,
  uart_send_remaining_request_part, uart_send_char, uart_send_char_as, find_reply, send_reply_bytes,
  send_reply, handle_response,
}
use esphome.Ebus.Receive.{receive_char}
use esphome.Ebus.Active.{advance_in, advance_command, send_command_rest}
use esphome.Ebus.Process.{
  unescape, Unescaped, real_byte, escape_begins, invalid_sequence, process_received_char,
  process_byte, flush_telegram, track_syn, fetch_command, process_unescaped, prepare, finish,
  acknowledge,
}
use esphome.Ebus.Receiver.{
  observe, fresh_telegram, receive_unescaped, receive_step, process_received_char_observed,
}
use esphome.Ebus.Safety.{IsReceiving}
use esphome.Ebus.Invariant.{process_received_char-Processes}

-- The telegrams that are queued, in order.
unfoldable pub queued : List Effect → List Telegram
queued [] = []
queued (uart_send bytes ∷ rest) = queued rest
queued (queue_received_telegram t ∷ rest) = t ∷ queued rest
queued (dequeue_command ∷ rest) = queued rest

queued-append : (xs ys : List Effect) → queued (xs ++ ys) ≡ queued xs ++ queued ys
unfolding queued
queued-append [] ys = refl
queued-append (uart_send bytes ∷ xs) ys = queued-append xs ys
queued-append (queue_received_telegram t ∷ xs) ys = ap (◌∷◌ t) (queued-append xs ys)
queued-append (dequeue_command ∷ xs) ys = queued-append xs ys

queued-append_silent : (xs ys : List Effect) → queued ys ≡ [] → queued (xs ++ ys) ≡ queued xs
queued-append_silent xs ys silent =
    queued-append xs ys ∙ ap (◌++◌ (queued xs)) silent ∙ append-nil (queued xs)

send_request_bytes-queued :
    (command : SendCommand) (left i : ℕ) → queued (send_request_bytes command left i) ≡ []
unfolding queued send_request_bytes uart_send_char
send_request_bytes-queued command zero i = refl
send_request_bytes-queued command (suc left) i = send_request_bytes-queued command left (i + 1)

request_part-queued :
    (command : SendCommand) → queued (uart_send_remaining_request_part command) ≡ []
unfolding queued uart_send_remaining_request_part uart_send_char
request_part-queued command =
    queued-append (send_request_bytes command (get_nn command.base) 0) _
    ∙ ap (λ ts. ts ++ []) (send_request_bytes-queued command (get_nn command.base) 0)

advance_in-queued :
    (s : TelegramState) (received : ℕ) (e : Ebus) → queued (advance_in s received e).1 ≡ []
unfolding queued advance_in uart_send_char send_command_rest
advance_in-queued wait_for_send received e = ground arith
advance_in-queued wait_for_arbitration received e =
    ground (arith, request_part-queued e.active_command)
advance_in-queued wait_for_arbitration_2nd received e =
    ground (arith, request_part-queued e.active_command)
advance_in-queued wait_for_command_ack received e = ground arith
advance_in-queued _ received e = refl

acknowledge-queued : (e : Ebus) → queued (acknowledge e) ≡ []
unfolding queued acknowledge uart_send_char uart_send_char_as
acknowledge-queued e = ground arith

send_reply_bytes-queued : (reply : List ℕ) (crc : ℕ) → queued (send_reply_bytes reply crc) ≡ []
unfolding queued send_reply_bytes uart_send_char
send_reply_bytes-queued [] crc = refl
send_reply_bytes-queued (byte ∷ rest) crc = send_reply_bytes-queued rest _

send_reply-queued : (reply : List ℕ) → queued (send_reply reply) ≡ []
unfolding queued send_reply uart_send_char
send_reply-queued reply =
    ground (arith, send_reply_bytes-queued reply (crc8_calc (u8 (length reply)) 0))

handle_response-queued : (e : Ebus) (t : Telegram) → queued (handle_response e t) ≡ []
unfolding queued handle_response uart_send_char
handle_response-queued e t =
    ground (arith, send_reply-queued (find_reply e.send_response_handlers t))

fetch_command-queued :
    (dequeue : Option (Option SendCommand)) (e : Ebus) → queued (fetch_command dequeue e).1 ≡ []
unfolding queued fetch_command
fetch_command-queued none e = refl
fetch_command-queued (some none) e = ground arith
fetch_command-queued (some (some c)) e = ground arith

-- The telegram that has ended before the byte, if there is one and the callback is set.
unfoldable pub ended : Ebus → List Telegram
ended e =
    if e.queues_received_telegrams && is_finished e.receiving_telegram.base
    then e.receiving_telegram ∷ []
    else []

track_syn-ended : (received : ℕ) (e : Ebus) → ended (track_syn received e) ≡ ended e
unfolding ended track_syn
track_syn-ended received e = ground arith

flush_telegram-queued : (e : Ebus) → queued (flush_telegram e).1 ≡ ended e
unfolding queued flush_telegram ended
flush_telegram-queued e = ground arith

prepare-queued :
    (dequeue : Option (Option SendCommand)) (received : ℕ) (e : Ebus)
    → queued (prepare dequeue received e).1 ≡ ended e
unfolding prepare
prepare-queued dequeue received e =
    let tracked : Ebus = track_syn received e in
    queued-append_silent (flush_telegram tracked).1 _
      (fetch_command-queued dequeue (flush_telegram tracked).0)
    ∙ flush_telegram-queued tracked
    ∙ track_syn-ended received e

finish-queued :
    (received : ℕ) (before : List Effect) (e : Ebus)
    → queued (finish received before e).1 ≡ queued before
unfolding finish advance_command
finish-queued received before e =
    let next : Ebus = (advance_command received e).0 in
    let answers : List Effect = handle_response next next.receiving_telegram in
    queued-append_silent before _ (
      queued-append_silent (advance_command received e).1 _ (
        queued-append_silent (acknowledge next) answers
          (handle_response-queued next next.receiving_telegram)
        ∙ acknowledge-queued next)
      ∙ advance_in-queued e.active_command.state received e)

-- The telegram that is handed to the queue at a byte, from what the byte says. One that has ended is
-- not, where the byte makes an escape invalid: `process_received_char` drops it then.
unfoldable pub handed_at : Unescaped → Ebus → List Telegram
unfolding ended
handed_at escape_begins e = []
handed_at invalid_sequence e = []
handed_at (real_byte real) e = ended e

-- The same of a result.
QueuedBy : Option (Ebus × List Effect) → List Telegram → Type 0
QueuedBy none ts = Unit
QueuedBy (some (next, effects)) ts = queued effects ≡ ts

finish-QueuedBy :
    (received : ℕ) (before : List Effect) (ready : Ebus) (r : Option Telegram)
    → QueuedBy
        (r >>= λ t. some (finish received before (record ready { receiving_telegram = t })))
        (queued before)
unfolding QueuedBy
finish-QueuedBy received before ready none = tt
finish-QueuedBy received before ready (some t) = finish-queued received before _

process_unescaped-QueuedBy :
    (u : Unescaped) (dequeue : Option (Option SendCommand)) (received : ℕ) (e : Ebus)
    → QueuedBy (process_unescaped u dequeue received e) (handed_at u e)
unfolding process_unescaped process_byte handed_at QueuedBy queued
process_unescaped-QueuedBy escape_begins dequeue received e = refl
process_unescaped-QueuedBy invalid_sequence dequeue received e = refl
process_unescaped-QueuedBy (real_byte real) dequeue received e =
    let e' : Ebus = record e { in_esc = false } in
    let p = prepare dequeue received e' in
    subst
      (QueuedBy (
        receive_char received real p.0.receiving_telegram >>= λ t.
        some (finish received p.1 (record p.0 { receiving_telegram = t }))))
      (prepare-queued dequeue received e')
      (finish-QueuedBy received p.1 p.0 (receive_char received real p.0.receiving_telegram))

pub process_unescaped-queued :
    (u : Unescaped) (dequeue : Option (Option SendCommand)) (received : ℕ) (e next : Ebus)
    (effects : List Effect)
    → process_unescaped u dequeue received e ≡ some (next, effects)
    → queued effects ≡ handed_at u e
unfolding QueuedBy
process_unescaped-queued u dequeue received e next effects r =
    subst (λ result. QueuedBy result (handed_at u e)) r
      (process_unescaped-QueuedBy u dequeue received e)

-- What becomes of the telegram, by what the byte says: the first byte of an escape leaves it, an
-- invalid escape drops it, also if it has ended, and any other byte goes to it, or to a new one if it
-- has ended.
abbrev pub GoesOn : Unescaped → ℕ → Telegram → Telegram → Type 0
GoesOn escape_begins received t t' = t' ≡ t
GoesOn invalid_sequence received t t' = t' ≡ new_telegram
GoesOn (real_byte real) received t t' = receive_char received real (fresh_telegram t) ≡ some t'

receive_unescaped-GoesOn :
    (u : Unescaped) (received : ℕ) (t t' : Telegram) (in_esc : Bool)
    → receive_unescaped u t received ≡ some (in_esc, t')
    → GoesOn u received t t'
unfolding receive_unescaped
receive_unescaped-GoesOn escape_begins received t t' in_esc e = cc
receive_unescaped-GoesOn invalid_sequence received t t' in_esc e = cc
receive_unescaped-GoesOn (real_byte real) received t t' in_esc e =
    of_bind (receive_char received real (fresh_telegram t)) e
  where
    closed : Telegram → Option (Bool × Telegram)
    closed x = some (false, x)

    of_bind : (m : Option Telegram) → (m >>= closed) ≡ some (in_esc, t') → m ≡ some t'
    of_bind none h = cc
    of_bind (some x) h = cc

-- If the receiving telegram is proper, a byte is processed, and what it hands to the queue is the
-- telegram that has ended before it, where the callback is set and the byte says one that is not
-- part of an escape yet, and nothing otherwise. A byte that says one goes to that telegram, or to a
-- new one if it has ended, so that it is not queued again. Behind the first byte of an escape the
-- telegram is still there; behind a byte that makes the escape invalid it is replaced by a new one,
-- and one that has ended is lost.
pub process_received_char-queued :
    (dequeue : Option (Option SendCommand)) (received : ℕ) (e : Ebus)
    → received < 256
    → IsReceiving e.receiving_telegram
    → (next : Ebus) × (effects : List Effect) × (process_received_char dequeue received e
        ≡ some (next, effects))
      × (queued effects ≡ handed_at (unescape e.in_esc received) e)
      × GoesOn (unescape e.in_esc received) received e.receiving_telegram next.receiving_telegram
unfolding process_received_char receive_step
process_received_char-queued dequeue received e h v =
    let p = process_received_char-Processes dequeue received e h v in
    (
      p.next,
      p.effects,
      p.returns,
      process_unescaped-queued (unescape e.in_esc received) dequeue received e p.next p.effects
          p.returns,
      receive_unescaped-GoesOn (unescape e.in_esc received) received e.receiving_telegram
          p.next.receiving_telegram p.next.in_esc
          (sym (process_received_char_observed dequeue received e) ∙ ap observe p.returns),
    )
