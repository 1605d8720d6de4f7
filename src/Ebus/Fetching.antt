-- ===== src/Ebus/Fetching.antt =====
-- When `process_received_char` of esphome/components/ebus/ebus.cpp asks for the next command.
use esphome.Prelude.{
  ℕ, zero, suc, ◌+◌, ◌≡◌, false, refl, subst, if◌then◌else◌, List, [], ◌∷◌, ◌++◌, Option, some,
  none, ◌>>=◌, arith, u8, length,
}
use esphome.Elf.{crc8_calc}
use esphome.Telegram.{
  TelegramState, wait_for_send, wait_for_arbitration, wait_for_arbitration_2nd,
  wait_for_command_ack, is_finished, get_nn,
}
use esphome.Telegram.Received.{Telegram}
use esphome.Telegram.Command.{SendCommand}
use esphome.Ebus.{
  Ebus, Effect, uart_send, queue_received_telegram, dequeue_command, send_request_bytes,
  uart_send_remaining_request_part, uart_send_char, uart_send_char_as, find_reply, send_reply_bytes,
  send_reply, handle_response,
}
use esphome.Ebus.Receive.{receive_char}
use esphome.Ebus.Active.{advance_in, advance_command, send_command_rest}
use esphome.Ebus.Process.{
  unescape, Unescaped, real_byte, escape_begins, invalid_sequence, process_received_char,
  process_byte, flush_telegram, track_syn, fetch_command, process_unescaped, prepare, finish,
  acknowledge,
}

-- How often the next command is asked for.
unfoldable pub dequeues : List Effect → ℕ
dequeues [] = 0
dequeues (uart_send bytes ∷ rest) = dequeues rest
dequeues (queue_received_telegram t ∷ rest) = dequeues rest
dequeues (dequeue_command ∷ rest) = suc (dequeues rest)

dequeues-append : (xs ys : List Effect) → dequeues (xs ++ ys) ≡ dequeues xs + dequeues ys
unfolding dequeues
dequeues-append [] ys = omega arith
dequeues-append (uart_send bytes ∷ xs) ys = dequeues-append xs ys
dequeues-append (queue_received_telegram t ∷ xs) ys = dequeues-append xs ys
dequeues-append (dequeue_command ∷ xs) ys = omega (arith, dequeues-append xs ys)

send_request_bytes-dequeues :
    (command : SendCommand) (left i : ℕ) → dequeues (send_request_bytes command left i) ≡ 0
unfolding dequeues send_request_bytes uart_send_char
send_request_bytes-dequeues command zero i = refl
send_request_bytes-dequeues command (suc left) i = send_request_bytes-dequeues command left (i + 1)

request_part-dequeues :
    (command : SendCommand) → dequeues (uart_send_remaining_request_part command) ≡ 0
unfolding dequeues uart_send_remaining_request_part uart_send_char
request_part-dequeues command = omega (
  arith,
  dequeues-append (send_request_bytes command (get_nn command.base) 0)
      (uart_send_char (command.request_rolling_crc) ∷ []),
  send_request_bytes-dequeues command (get_nn command.base) 0,
)

advance_in-dequeues :
    (s : TelegramState) (received : ℕ) (e : Ebus) → dequeues (advance_in s received e).1 ≡ 0
unfolding dequeues advance_in uart_send_char send_command_rest
advance_in-dequeues wait_for_send received e = ground arith
advance_in-dequeues wait_for_arbitration received e =
    ground (arith, request_part-dequeues e.active_command)
advance_in-dequeues wait_for_arbitration_2nd received e =
    ground (arith, request_part-dequeues e.active_command)
advance_in-dequeues wait_for_command_ack received e = ground arith
advance_in-dequeues _ received e = refl

acknowledge-dequeues : (e : Ebus) → dequeues (acknowledge e) ≡ 0
unfolding dequeues acknowledge uart_send_char uart_send_char_as
acknowledge-dequeues e = ground arith

send_reply_bytes-dequeues : (reply : List ℕ) (crc : ℕ) → dequeues (send_reply_bytes reply crc) ≡ 0
unfolding dequeues send_reply_bytes uart_send_char
send_reply_bytes-dequeues [] crc = refl
send_reply_bytes-dequeues (byte ∷ rest) crc = send_reply_bytes-dequeues rest _

send_reply-dequeues : (reply : List ℕ) → dequeues (send_reply reply) ≡ 0
unfolding dequeues send_reply uart_send_char
send_reply-dequeues reply =
    ground (arith, send_reply_bytes-dequeues reply (crc8_calc (u8 (length reply)) 0))

handle_response-dequeues : (e : Ebus) (t : Telegram) → dequeues (handle_response e t) ≡ 0
unfolding dequeues handle_response uart_send_char
handle_response-dequeues e t =
    ground (arith, send_reply-dequeues (find_reply e.send_response_handlers t))

-- Whether the next command is asked for: the active one is finished.
unfoldable pub fetches : Ebus → ℕ
fetches e = if is_finished e.active_command.base then 1 else 0

fetch_command-dequeues :
    (answer : Option SendCommand) (e : Ebus)
    → dequeues (fetch_command (some answer) e).1 ≡ fetches e
unfolding dequeues fetch_command fetches
fetch_command-dequeues none e = ground arith
fetch_command-dequeues (some c) e = ground arith

flush_telegram-dequeues :
    (received : ℕ) (e : Ebus)
    → (dequeues (flush_telegram (track_syn received e)).1 ≡ 0)
      × (fetches (flush_telegram (track_syn received e)).0 ≡ fetches e)
unfolding dequeues flush_telegram track_syn fetches
flush_telegram-dequeues received e = ground arith

prepare-dequeues :
    (answer : Option SendCommand) (received : ℕ) (e : Ebus)
    → dequeues (prepare (some answer) received e).1 ≡ fetches e
unfolding prepare
prepare-dequeues answer received e =
    let flushed = flush_telegram (track_syn received e) in
    omega (
      arith,
      dequeues-append flushed.1 (fetch_command (some answer) flushed.0).1,
      flush_telegram-dequeues received e,
      fetch_command-dequeues answer flushed.0,
    )

finish-dequeues :
    (received : ℕ) (before : List Effect) (e : Ebus)
    → dequeues (finish received before e).1 ≡ dequeues before
unfolding finish advance_command
finish-dequeues received before e =
    let next : Ebus = (advance_command received e).0 in
    let answers : List Effect = handle_response next next.receiving_telegram in
    omega (
      arith,
      dequeues-append before ((advance_command received e).1 ++ (acknowledge next ++ answers)),
      dequeues-append (advance_command received e).1 (acknowledge next ++ answers),
      dequeues-append (acknowledge next) answers,
      advance_in-dequeues e.active_command.state received e,
      acknowledge-dequeues next,
      handle_response-dequeues next next.receiving_telegram,
    )

-- The same of a byte, from what it says.
unfoldable pub fetches_at : Unescaped → Ebus → ℕ
unfolding fetches
fetches_at escape_begins e = 0
fetches_at invalid_sequence e = 0
fetches_at (real_byte real) e = fetches e

AsksBy : Option (Ebus × List Effect) → ℕ → Type 0
AsksBy none n = Unit
AsksBy (some (next, effects)) n = dequeues effects ≡ n

finish-AsksBy :
    (received : ℕ) (before : List Effect) (ready : Ebus) (r : Option Telegram)
    → AsksBy
        (r >>= λ t. some (finish received before (record ready { receiving_telegram = t })))
        (dequeues before)
unfolding AsksBy
finish-AsksBy received before ready none = tt
finish-AsksBy received before ready (some t) = finish-dequeues received before _

process_unescaped-AsksBy :
    (u : Unescaped) (answer : Option SendCommand) (received : ℕ) (e : Ebus)
    → AsksBy (process_unescaped u (some answer) received e) (fetches_at u e)
unfolding process_unescaped process_byte fetches_at AsksBy dequeues
process_unescaped-AsksBy escape_begins answer received e = refl
process_unescaped-AsksBy invalid_sequence answer received e = refl
process_unescaped-AsksBy (real_byte real) answer received e =
    let e' : Ebus = record e { in_esc = false } in
    let p = prepare (some answer) received e' in
    subst
      (AsksBy (
        receive_char received real p.0.receiving_telegram >>= λ t.
        some (finish received p.1 (record p.0 { receiving_telegram = t }))))
      (prepare-dequeues answer received e')
      (finish-AsksBy received p.1 p.0 (receive_char received real p.0.receiving_telegram))

-- A byte that is not part of an escape asks for the next command, if the active one is finished.
pub process_received_char-dequeues :
    (answer : Option SendCommand) (received : ℕ) (e next : Ebus) (effects : List Effect)
    → process_received_char (some answer) received e ≡ some (next, effects)
    → dequeues effects ≡ fetches_at (unescape e.in_esc received) e
unfolding AsksBy process_received_char
process_received_char-dequeues answer received e next effects r =
    subst (λ result. AsksBy result (fetches_at (unescape e.in_esc received) e)) r
      (process_unescaped-AsksBy (unescape e.in_esc received) answer received e)
