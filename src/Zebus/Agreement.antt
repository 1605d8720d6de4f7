-- ===== src/Zebus/Agreement.antt =====
-- The earlier driver does what the later one does with every byte that is not ESC: a step of one is a
-- step of the other.
use esphome.Prelude.{
  ℕ, ◌≡◌, ◌≢◌, refl, sym, ◌∙◌, subst, false, List, Option, some, none, ◌>>=◌, arith,
}
use esphome.Telegram.{
  TelegramState, wait_for_send, wait_for_arbitration, wait_for_arbitration_2nd,
  wait_for_command_ack, esc,
}
use esphome.Telegram.Received.{Telegram, new_telegram}
use esphome.Telegram.Command.{SendCommand}
use esphome.Ebus.{Ebus, Effect}
use esphome.Ebus.Receive.{receive_char}
use esphome.Ebus.Active.{advance_in, advance_command}
use esphome.Ebus.Process.{
  unescape, real_byte, process_received_char, process_byte, process_unescaped, prepare, track_syn,
  flush_telegram, fetch_command, finish,
}
use esphome.Ebus.Receiver.{fresh_telegram, prepare_receiving}
use esphome.Zebus.Active.{drive_command}
use esphome.Zebus.Process.{process_received_char as process_received_char', after_reception}
use esphome.Zebus.SameSteps.{
  earlier, RepliesFit, same_receive_char, earlier_result, same_advance_in, same_prepare,
  same_acknowledge,
}
use esphome.Zebus.SameReplies.{same_handle_response}

pub advance_in_handlers :
    (s : TelegramState) (received : ℕ) (e : Ebus)
    → (advance_in s received e).0.send_response_handlers ≡ e.send_response_handlers
unfolding advance_in
advance_in_handlers wait_for_send received e = ground arith
advance_in_handlers wait_for_arbitration received e = ground arith
advance_in_handlers wait_for_arbitration_2nd received e = ground arith
advance_in_handlers wait_for_command_ack received e = ground arith
advance_in_handlers _ received e = refl

track_syn_handlers :
    (received : ℕ) (e : Ebus)
    → (track_syn received e).send_response_handlers ≡ e.send_response_handlers
unfolding track_syn
track_syn_handlers received e = ground arith

flush_telegram_handlers :
    (e : Ebus) → (flush_telegram e).0.send_response_handlers ≡ e.send_response_handlers
unfolding flush_telegram
flush_telegram_handlers e = ground arith

fetch_command_handlers :
    (dequeue : Option (Option SendCommand)) (e : Ebus)
    → (fetch_command dequeue e).0.send_response_handlers ≡ e.send_response_handlers
unfolding fetch_command
fetch_command_handlers none e = refl
fetch_command_handlers (some none) e = ground arith
fetch_command_handlers (some (some c)) e = ground arith

pub prepare_handlers :
    (dequeue : Option (Option SendCommand)) (received : ℕ) (e : Ebus)
    → (prepare dequeue received e).0.send_response_handlers ≡ e.send_response_handlers
unfolding prepare
prepare_handlers dequeue received e =
    fetch_command_handlers dequeue (flush_telegram (track_syn received e)).0
    ∙ flush_telegram_handlers (track_syn received e)
    ∙ track_syn_handlers received e

-- The second half of the step.
same_finish :
    (received : ℕ) (before : List Effect) (e : Ebus)
    → ((t : Telegram) → RepliesFit e.send_response_handlers t)
    → after_reception received before (earlier e) ≡ some (earlier_result (finish received before e))
unfolding after_reception finish drive_command advance_command earlier
same_finish received before e fits =
    let next : Ebus = (advance_in e.active_command.state received e).0 in
    rw (
      same_advance_in e.active_command.state received e,
      same_handle_response next next.receiving_telegram (
          subst (λ handlers. RepliesFit handlers next.receiving_telegram)
            (sym (advance_in_handlers e.active_command.state received e))
            (fits next.receiving_telegram)),
      same_acknowledge next,
    )

same_rest :
    (received : ℕ) (before : List Effect) (e : Ebus) (result : Option Telegram)
    → ((t : Telegram) → RepliesFit e.send_response_handlers t)
    → (result >>= λ t.
        after_reception received before (record (earlier e) { receiving_telegram = t }))
      ≡ (result
          >>= (λ t. some (finish received before (record e { receiving_telegram = t })))
          >>= λ r. some (earlier_result r))
unfolding earlier
same_rest received before e none fits = refl
same_rest received before e (some t) fits =
    same_finish received before (record e { receiving_telegram = t }) fits

fresh_telegram-open :
    (t : Telegram)
    → t.wait_for_escaped_char ≡ false
    → (fresh_telegram t).wait_for_escaped_char ≡ false
unfolding fresh_telegram new_telegram
fresh_telegram-open t h = ground arith

same_process_byte :
    (dequeue : Option (Option SendCommand)) (received : ℕ) (e : Ebus)
    → received ≢ esc
    → e.receiving_telegram.wait_for_escaped_char ≡ false
    → ((t : Telegram) → RepliesFit e.send_response_handlers t)
    → process_received_char' dequeue received (earlier e)
      ≡ (process_byte dequeue received received e >>= λ r. some (earlier_result r))
unfolding process_received_char' process_byte earlier
same_process_byte dequeue received e other open' fits =
    rw
      (
        same_prepare dequeue received e,
        same_receive_char received other ready.receiving_telegram ready_open,
      )
      (same_rest received (prepare dequeue received e).1 ready
        (receive_char received received ready.receiving_telegram) ready_fits)
  where
    ready : Ebus
    ready = (prepare dequeue received e).0

    ready_open : ready.receiving_telegram.wait_for_escaped_char ≡ false
    ready_open =
        subst (λ t. t.wait_for_escaped_char ≡ false) (sym (prepare_receiving dequeue received e))
          (fresh_telegram-open e.receiving_telegram open')

    ready_fits : (t : Telegram) → RepliesFit ready.send_response_handlers t
    ready_fits t =
        subst (λ handlers. RepliesFit handlers t) (sym (prepare_handlers dequeue received e))
          (fits t)

-- On a byte other than ESC, and between escapes, the earlier driver does just what the later one does:
-- it sends, queues and dequeues the same, in the same order, and is in the same state afterwards. The
-- handlers are the same, and their replies fit the buffer.
pub process_received_char_same :
    (dequeue : Option (Option SendCommand)) (received : ℕ) (e : Ebus)
    → received ≢ esc
    → e.in_esc ≡ false
    → e.receiving_telegram.wait_for_escaped_char ≡ false
    → ((t : Telegram) → RepliesFit e.send_response_handlers t)
    → process_received_char' dequeue received (earlier e)
      ≡ (process_received_char dequeue received e >>= λ r. some (earlier_result r))
unfolding process_received_char process_unescaped earlier
process_received_char_same dequeue received e other closed open' fits =
    rw (says) (same_process_byte dequeue received (record e { in_esc = false }) other open' fits)
  where
    says : unescape e.in_esc received ≡ real_byte received
    says = unfold unescape in ground arith
