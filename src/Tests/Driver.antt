-- ===== src/Tests/Driver.antt =====
-- Runs of one command at concrete inputs.
use esphome.Prelude.{
  ℕ, ◌==◌, ◌-◌, ◌<◌, ◌≡◌, ◌≢◌, refl, true, false, List, [], ◌∷◌, none, arith, All,
}
use esphome.Elf.{is_primary, get_priority_class}
use esphome.Telegram.{
  wait_for_send, end_completed, end_send_failed, is_ack_expected, get_type, get_zz, get_qq, syn,
  esc,
}
use esphome.Telegram.Frame.{request_of}
use esphome.Telegram.Received.{new_telegram}
use esphome.Telegram.Command.{command_to_state}
use esphome.Ebus.{Ebus, normal, uart_send_char, uart_send_remaining_request_part}
use esphome.Ebus.Safety.{new_telegram-IsReceiving}
use esphome.Ebus.Attempts.{allowed_tries}
use esphome.Ebus.Failure.{attempts_lost, run-Failed}
use esphome.Ebus.Reaching.{Reaches, Sends, run}
use esphome.Ebus.Completion.{exchange, IsEcho, run-completes}

-- The driver with a command to send, and a lock.
abbrev pub locked : Ebus
locked = record {
  primary_address = 0x10;
  max_tries = 2;
  max_lock_counter = 4;
  lock_counter = 3;
  char_count_since_last_syn = 0;
  in_esc = false;
  state = normal;
  receiving_telegram = new_telegram;
  active_command = record {
    base = request_of wait_for_send (0x10 ∷ 0x08 ∷ 0xB5 ∷ 0x09 ∷ 0x01 ∷ 0xA9 ∷ 137 ∷ []) 137;
    tries_count = 0;
  };
  send_response_handlers = [];
  queues_received_telegrams = true;
}

-- It comes back with an escape that is not one of ESC itself.
abbrev echo : List ℕ
echo = 0x08 ∷ 0xB5 ∷ 0x09 ∷ 0x01 ∷ 0xA9 ∷ 0x01 ∷ 137 ∷ []

echo-IsEcho : All IsEcho echo
echo-IsEcho = (
  (omega arith, omega arith, omega arith),
  (
    (omega arith, omega arith, omega arith),
    (
      (omega arith, omega arith, omega arith),
      (
        (omega arith, omega arith, omega arith),
        (
          (omega arith, omega arith, omega arith),
          ((omega arith, omega arith, omega arith), ((omega arith, omega arith, omega arith), tt)),
        ),
      ),
    ),
  ),
)

expected : is_ack_expected locked.active_command.base ≡ true
unfolding is_ack_expected get_type get_zz is_primary
expected = refl

run-completes_example :
    Sends
      ((uart_send_char (get_qq locked.active_command.base) ∷ [])
        ∷ uart_send_remaining_request_part locked.active_command
        ∷ [])
      (λ final.
        (final.active_command ≡ command_to_state end_completed locked.active_command)
        × (final.lock_counter ≡ 4))
      (run none (exchange 3 (get_qq locked.active_command.base) echo) locked)
run-completes_example =
    run-completes none locked echo refl expected own refl new_telegram-IsReceiving (omega arith)
      echo-IsEcho refl
  where
    own :
        (get_qq locked.active_command.base < 256)
        × (get_qq locked.active_command.base ≢ syn)
        × (get_qq locked.active_command.base ≢ esc)
    own = unfold get_qq in (omega arith, omega arith, omega arith)

-- The same driver without a lock; the participant 0x03 always wins.
abbrev unlucky : Ebus
unlucky = record locked { lock_counter = 0 }

run-Failed_example :
    Reaches
      (λ final. final.active_command.state ≡ end_send_failed)
      (run none (attempts_lost 0x03 0x08 (allowed_tries 2 - 0)) unlucky)
run-Failed_example =
    run-Failed none unlucky 0x03 0x08 (omega arith, omega arith, omega arith)
      (omega arith, omega arith, omega arith) other apart refl refl refl new_telegram-IsReceiving
      (omega arith)
  where
    other : 0x03 ≢ get_qq unlucky.active_command.base
    other = unfold get_qq in omega arith

    apart :
        (get_priority_class 0x03 == get_priority_class (get_qq unlucky.active_command.base)) ≡ false
    apart = unfold get_qq get_priority_class in refl
