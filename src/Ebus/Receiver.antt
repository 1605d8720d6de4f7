-- ===== src/Ebus/Receiver.antt =====
-- The part of `process_received_char` that decides what is received, apart from the rest: the
-- command that is being sent, the lock and the callbacks have no influence on it.
use esphome.Prelude.{
  ℕ, ◌≡◌, refl, ap, ap₂, ◌∙◌, Bool, true, false, if◌then◌else◌, Option, some, none, ◌>>=◌, arith,
  List,
}
use esphome.Telegram.{
  TelegramState, wait_for_send, wait_for_arbitration, wait_for_arbitration_2nd,
  wait_for_command_ack, is_finished,
}
use esphome.Telegram.Received.{Telegram, new_telegram}
use esphome.Telegram.Command.{SendCommand}
use esphome.Ebus.{Ebus, Effect}
use esphome.Ebus.Receive.{receive_char}
use esphome.Ebus.Active.{advance_in, advance_command}
use esphome.Ebus.Process.{
  unescape, Unescaped, real_byte, escape_begins, invalid_sequence, process_received_char,
  process_byte, flush_telegram, track_syn, fetch_command, process_unescaped, prepare, finish,
}

advance_in_receiving :
    (s : TelegramState) (received : ℕ) (e : Ebus)
    → (advance_in s received e).0.receiving_telegram ≡ e.receiving_telegram
unfolding advance_in
advance_in_receiving wait_for_send received e = ground arith
advance_in_receiving wait_for_arbitration received e = ground arith
advance_in_receiving wait_for_arbitration_2nd received e = ground arith
advance_in_receiving wait_for_command_ack received e = ground arith
advance_in_receiving _ received e = refl

advance_command_receiving :
    (received : ℕ) (e : Ebus)
    → (advance_command received e).0.receiving_telegram ≡ e.receiving_telegram
unfolding advance_command
advance_command_receiving received e = advance_in_receiving e.active_command.state received e

-- The telegram that the next byte belongs to.
unfoldable pub fresh_telegram : Telegram → Telegram
fresh_telegram t = if is_finished t.base then new_telegram else t

track_syn_receiving :
    (received : ℕ) (e : Ebus) → (track_syn received e).receiving_telegram ≡ e.receiving_telegram
unfolding track_syn
track_syn_receiving received e = ground arith

flush_telegram_receiving :
    (e : Ebus) → (flush_telegram e).0.receiving_telegram ≡ fresh_telegram e.receiving_telegram
unfolding flush_telegram fresh_telegram
flush_telegram_receiving e = ground arith

fetch_command_receiving :
    (dequeue : Option (Option SendCommand)) (e : Ebus)
    → (fetch_command dequeue e).0.receiving_telegram ≡ e.receiving_telegram
unfolding fetch_command
fetch_command_receiving none e = refl
fetch_command_receiving (some none) e = ground arith
fetch_command_receiving (some (some c)) e = ground arith

pub prepare_receiving :
    (dequeue : Option (Option SendCommand)) (received : ℕ) (e : Ebus)
    → (prepare dequeue received e).0.receiving_telegram ≡ fresh_telegram e.receiving_telegram
unfolding prepare
prepare_receiving dequeue received e =
    fetch_command_receiving dequeue _
    ∙ flush_telegram_receiving (track_syn received e)
    ∙ ap fresh_telegram (track_syn_receiving received e)

prepare_in_esc :
    (dequeue : Option (Option SendCommand)) (received : ℕ) (e : Ebus)
    → (prepare dequeue received e).0.in_esc ≡ e.in_esc
unfolding prepare fetch_command flush_telegram track_syn
prepare_in_esc none received e = ground arith
prepare_in_esc (some none) received e = ground arith
prepare_in_esc (some (some c)) received e = ground arith

advance_in_in_esc :
    (s : TelegramState) (received : ℕ) (e : Ebus) → (advance_in s received e).0.in_esc ≡ e.in_esc
unfolding advance_in
advance_in_in_esc wait_for_send received e = ground arith
advance_in_in_esc wait_for_arbitration received e = ground arith
advance_in_in_esc wait_for_arbitration_2nd received e = ground arith
advance_in_in_esc wait_for_command_ack received e = ground arith
advance_in_in_esc _ received e = refl

pub finish_receiving :
    (received : ℕ) (before : List Effect) (e : Ebus)
    → (finish received before e).0.receiving_telegram ≡ e.receiving_telegram
unfolding finish
finish_receiving received before e = advance_command_receiving received e

finish_in_esc :
    (received : ℕ) (before : List Effect) (e : Ebus)
    → (finish received before e).0.in_esc ≡ e.in_esc
unfolding finish advance_command
finish_in_esc received before e = advance_in_in_esc e.active_command.state received e

-- Reception by itself, from whether an escape is open and the telegram so far.
unfoldable pub receive_unescaped : Unescaped → Telegram → ℕ → Option (Bool × Telegram)
receive_unescaped escape_begins t received = some (true, t)
receive_unescaped invalid_sequence t received = some (false, new_telegram)
receive_unescaped (real_byte real) t received =
    receive_char received real (fresh_telegram t) >>= λ t'. some (false, t')

unfoldable pub receive_step : Bool → Telegram → ℕ → Option (Bool × Telegram)
unfolding receive_unescaped
receive_step in_esc t received = receive_unescaped (unescape in_esc received) t received

-- The part of a result that concerns reception.
abbrev pub observe : Option (Ebus × List Effect) → Option (Bool × Telegram)
observe none = none
observe (some (e, effects)) = some (e.in_esc, e.receiving_telegram)

observe-finish :
    (received : ℕ) (before : List Effect) (ready : Ebus) (r : Option Telegram)
    → observe (r >>= λ t. some (finish received before (record ready { receiving_telegram = t })))
      ≡ (r >>= λ t. some (ready.in_esc, t))
observe-finish received before ready none = refl
observe-finish received before ready (some t) = cc (
  finish_receiving received before (record ready { receiving_telegram = t }),
  finish_in_esc received before (record ready { receiving_telegram = t }),
)

process_byte_observed :
    (dequeue : Option (Option SendCommand)) (received real : ℕ) (e : Ebus)
    → observe (process_byte dequeue received real e) ≡ (
        receive_char received real (fresh_telegram e.receiving_telegram) >>= λ t.
        some (e.in_esc, t))
unfolding process_byte
process_byte_observed dequeue received real e =
    observe-finish received _ ready (receive_char received real ready.receiving_telegram)
    ∙ ap₂ (λ t in_esc. receive_char received real t >>= λ t'. some (in_esc, t'))
        (prepare_receiving dequeue received e) (prepare_in_esc dequeue received e)
  where
    ready : Ebus
    ready = (prepare dequeue received e).0

process_unescaped_observed :
    (u : Unescaped) (dequeue : Option (Option SendCommand)) (received : ℕ) (e : Ebus)
    → observe (process_unescaped u dequeue received e)
      ≡ receive_unescaped u e.receiving_telegram received
unfolding process_unescaped receive_unescaped
process_unescaped_observed escape_begins dequeue received e = refl
process_unescaped_observed invalid_sequence dequeue received e = refl
process_unescaped_observed (real_byte real) dequeue received e =
    process_byte_observed dequeue received real (record e { in_esc = false })

-- What is received, and whether a buffer is left, depends on the received bytes alone: not on the
-- command that is being sent, the lock, the addresses, the handlers or the callbacks' answers.
pub process_received_char_observed :
    (dequeue : Option (Option SendCommand)) (received : ℕ) (e : Ebus)
    → observe (process_received_char dequeue received e)
      ≡ receive_step e.in_esc e.receiving_telegram received
unfolding process_received_char receive_step
process_received_char_observed dequeue received e =
    process_unescaped_observed (unescape e.in_esc received) dequeue received e
