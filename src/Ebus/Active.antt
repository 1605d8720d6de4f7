-- ===== src/Ebus/Active.antt =====
-- `process_received_char` of esphome/components/ebus/ebus.cpp, the part about the command that is
-- being sent: the second `switch`.
use esphome.Prelude.{ℕ, Bool, true, false, ◌&&◌, ◌==◌, if◌then◌else◌, List, [], ◌∷◌, int8}
use esphome.Elf.{get_priority_class}
use esphome.Telegram.{
  TelegramState, wait_for_send, wait_for_arbitration, wait_for_arbitration_2nd,
  wait_for_command_ack, end_completed, end_send_failed, syn, ack, get_qq, is_ack_expected,
}
use esphome.Telegram.Command.{command_to_state, can_retry}
use esphome.Ebus.{
  EbusState, normal, arbitration, Ebus, Effect, uart_send_char, uart_send_remaining_request_part,
}

unfoldable pub is_normal : EbusState → Bool
is_normal normal = true
is_normal arbitration = false

unfoldable pub set_command_state : TelegramState → Ebus → Ebus
unfolding command_to_state
set_command_state new_state e = record e {
  active_command = command_to_state new_state e.active_command;
}

-- The command is done: it is marked, and the lock is taken.
unfoldable pub complete_command : Ebus → Ebus
unfolding set_command_state
complete_command e = record (set_command_state end_completed e) {
  lock_counter = e.max_lock_counter;
}

-- Try again later if retries are left.
unfoldable pub retry_command : Ebus → Ebus
unfolding can_retry command_to_state
retry_command e =
    let (again, command) = can_retry (int8 e.max_tries) e.active_command in
    record e {
      active_command = command_to_state (if again then wait_for_send else end_send_failed) command;
    }

-- Arbitration is won: the rest of the request goes out.
unfoldable pub send_command_rest : Ebus → Ebus × List Effect
unfolding set_command_state complete_command
send_command_rest e = (
  if is_ack_expected e.active_command.base
      then set_command_state wait_for_command_ack e
      else complete_command e,
  uart_send_remaining_request_part e.active_command,
)

-- The `switch`, a clause for each `case`; the last clause is `default`.
unfoldable pub advance_in : TelegramState → ℕ → Ebus → Ebus × List Effect
unfolding set_command_state complete_command retry_command send_command_rest is_normal get_qq
advance_in wait_for_send received_byte e =
    if received_byte == syn && (is_normal e.state && e.lock_counter == 0)
    then (
      set_command_state wait_for_arbitration e,
      uart_send_char (get_qq e.active_command.base) ∷ [],
    )
    else (e, [])
advance_in wait_for_arbitration received_byte e =
    let qq = get_qq e.active_command.base in
    if received_byte == qq
    then send_command_rest e
    else if get_priority_class received_byte == get_priority_class qq
    then (set_command_state wait_for_arbitration_2nd e, [])
    else (retry_command e, [])
advance_in wait_for_arbitration_2nd received_byte e =
    let qq = get_qq e.active_command.base in
    if received_byte == syn
    then (e, uart_send_char qq ∷ [])
    else if received_byte == qq
    then send_command_rest e
    else (retry_command e, [])
advance_in wait_for_command_ack received_byte e =
    if received_byte == ack
    then (complete_command e, [])
    else if received_byte == syn
    then (retry_command e, [])
    else (e, [])
advance_in _ received_byte e = (e, [])

unfoldable pub advance_command : ℕ → Ebus → Ebus × List Effect
unfolding advance_in
advance_command received_byte e = advance_in e.active_command.state received_byte e
