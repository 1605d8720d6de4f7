-- ===== src/Zebus/Active.antt =====
-- `process_received_char` of esphome/components/zebus/include/ebus.cpp, the part about the command
-- that is being sent: the second `switch`.
use esphome.Prelude.{ℕ, ◌&&◌, ◌==◌, if◌then◌else◌, List, [], ◌∷◌, int8}
use esphome.Zebus.Types.{syn, ack}
use esphome.Telegram.{
  TelegramState, wait_for_send, wait_for_arbitration, wait_for_arbitration_2nd,
  wait_for_command_ack, end_completed, end_send_failed,
}
use esphome.Ebus.{Effect}
use esphome.Ebus.Active.{is_normal}
use esphome.Zebus.Elf.{get_priority_class}
use esphome.Zebus.Telegram.{get_qq, is_ack_expected}
use esphome.Zebus.SendCommand.{enter_command, can_retry}
use esphome.Zebus.Driver.{Ebus, send_char, send_remaining_request_part}

unfoldable pub put_state : TelegramState → Ebus → Ebus
unfolding enter_command
put_state new_state e = record e { active_command = enter_command new_state e.active_command }

-- The command is done: it is marked, and the lock is taken.
unfoldable pub finish_command : Ebus → Ebus
unfolding put_state
finish_command e = record (put_state end_completed e) { lock_counter = e.max_lock_counter }

-- Try again later if retries are left.
unfoldable pub try_again : Ebus → Ebus
unfolding can_retry enter_command
try_again e =
    let (again, command) = can_retry (int8 e.max_tries) e.active_command in
    record e {
      active_command = enter_command (if again then wait_for_send else end_send_failed) command;
    }

-- Arbitration is won: the rest of the request goes out.
unfoldable pub win : Ebus → Ebus × List Effect
unfolding put_state finish_command
win e = (
  if is_ack_expected e.active_command.base
      then put_state wait_for_command_ack e
      else finish_command e,
  send_remaining_request_part e.active_command,
)

-- The `switch`, a clause for each `case`; the last clause is `default`.
unfoldable pub drive_in : TelegramState → ℕ → Ebus → Ebus × List Effect
unfolding put_state finish_command try_again win is_normal get_qq
drive_in wait_for_send received_byte e =
    if received_byte == syn && (is_normal e.state && e.lock_counter == 0)
    then (put_state wait_for_arbitration e, send_char (get_qq e.active_command.base) ∷ [])
    else (e, [])
drive_in wait_for_arbitration received_byte e =
    let qq = get_qq e.active_command.base in
    if received_byte == qq
    then win e
    else if get_priority_class received_byte == get_priority_class qq
    then (put_state wait_for_arbitration_2nd e, [])
    else (try_again e, [])
drive_in wait_for_arbitration_2nd received_byte e =
    let qq = get_qq e.active_command.base in
    if received_byte == syn
    then (e, send_char qq ∷ [])
    else if received_byte == qq
    then win e
    else (try_again e, [])
drive_in wait_for_command_ack received_byte e =
    if received_byte == ack
    then (finish_command e, [])
    else if received_byte == syn
    then (try_again e, [])
    else (e, [])
drive_in _ received_byte e = (e, [])

unfoldable pub drive_command : ℕ → Ebus → Ebus × List Effect
unfolding drive_in
drive_command received_byte e = drive_in e.active_command.state received_byte e
