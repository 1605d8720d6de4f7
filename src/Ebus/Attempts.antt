-- ===== src/Ebus/Attempts.antt =====
-- How often a command may still be started: the field `tries_count_` of the command, as the second
-- `switch` of `process_received_char` in esphome/components/ebus/ebus.cpp leaves it.
use esphome.Prelude.{
  ℕ, suc, ◌+◌, ◌-◌, ◌≤◌, ◌<◌, ◌≡◌, refl, Bool, true, false, if◌then◌else◌, ltb, arith, int8, lt_int,
  pos, u8,
}
use esphome.Telegram.{
  TelegramState, wait_for_send, wait_for_arbitration, wait_for_arbitration_2nd,
  wait_for_command_ack, end_completed, end_send_failed,
}
use esphome.Telegram.Command.{SendCommand, can_retry, command_to_state}
use esphome.Ebus.{Ebus}
use esphome.Ebus.Active.{retry_command, set_command_state, complete_command}
use esphome.Ebus.Arbitration.{Lost, Done, CommandMoves, idle, started, tied, sent, done, lost}

-- The tries that `max_tries_` allows as an `int8_t`.
unfoldable pub allowed_tries : ℕ → ℕ
allowed_tries max_tries = if ltb max_tries 128 then max_tries else 0

-- How often the command may still be started.
unfoldable attempts_in : TelegramState → ℕ → ℕ
attempts_in wait_for_send left = suc left
attempts_in wait_for_arbitration left = left
attempts_in wait_for_arbitration_2nd left = left
attempts_in wait_for_command_ack left = left
attempts_in _ left = 0

unfoldable pub attempts_left : ℕ → SendCommand → ℕ
unfolding attempts_in allowed_tries
attempts_left max_tries c = attempts_in c.state (allowed_tries max_tries - c.tries_count)

-- Whether the step from one state to the other puts the command onto the bus.
unfoldable pub starts : TelegramState → TelegramState → ℕ
starts wait_for_send wait_for_arbitration = 1
starts _ _ = 0

pub starts-same : (s : TelegramState) → starts s s ≡ 0
unfolding starts
starts-same wait_for_send = refl
starts-same wait_for_arbitration = refl
starts-same _ = refl

Lost-attempts :
    (received left : ℕ) (c : SendCommand) (s : TelegramState)
    → Lost received c
    → (starts c.state s ≡ 0) × (attempts_in c.state left ≡ left)
unfolding starts attempts_in
Lost-attempts received left c s l = ground arith

Done-attempts :
    (received left : ℕ) (c : SendCommand) (s : TelegramState)
    → Done received c
    → (starts c.state s ≡ 0) × (attempts_in c.state left ≡ left)
unfolding starts attempts_in
Done-attempts received left c s d = ground arith

can_retry-lt :
    (tries max_tries : ℕ)
    → lt_int (pos tries) (int8 max_tries) ≡ true
    → tries < allowed_tries max_tries
unfolding allowed_tries
can_retry-lt tries max_tries h = ground arith

retry-attempts :
    (max_tries : ℕ) (c : SendCommand) (again : Bool)
    → lt_int (pos c.tries_count) (int8 max_tries) ≡ again
    → attempts_in
        (if again then wait_for_send else end_send_failed)
        (allowed_tries max_tries - u8 (c.tries_count + 1))
      ≤ allowed_tries max_tries - c.tries_count
unfolding attempts_in allowed_tries
retry-attempts max_tries c true h = ground (arith, can_retry-lt c.tries_count max_tries h)
retry-attempts max_tries c false h = ground arith

pub move-attempts :
    (received : ℕ) (e e' : Ebus)
    → CommandMoves received e e'
    → starts e.active_command.state e'.active_command.state
        + attempts_left e.max_tries e'.active_command
      ≤ attempts_left e.max_tries e.active_command
unfolding attempts_left attempts_in starts allowed_tries set_command_state complete_command
    retry_command can_retry command_to_state
move-attempts received e _ (idle u) = omega (arith, starts-same e.active_command.state)
move-attempts received e _ (started s r n l) = ground arith
move-attempts received e _ (tied s ne cl) = ground arith
move-attempts received e _ (sent s q a) = ground arith
move-attempts received e _ (done d) = ground (
  arith,
  Done-attempts received (allowed_tries e.max_tries - e.active_command.tries_count) e.active_command
      end_completed d,
)
move-attempts received e _ (lost l) = omega (
  arith,
  Lost-attempts received (allowed_tries e.max_tries - e.active_command.tries_count) e.active_command
      (retry_command e).active_command.state l,
  retry-attempts e.max_tries e.active_command _ refl,
)

attempts_in-le : (s : TelegramState) (n k : ℕ) → attempts_in s (n - k) ≤ 1 + n
unfolding attempts_in
attempts_in-le wait_for_send n k = omega arith
attempts_in-le wait_for_arbitration n k = omega arith
attempts_in-le wait_for_arbitration_2nd n k = omega arith
attempts_in-le wait_for_command_ack n k = omega arith
attempts_in-le _ n k = omega arith

pub attempts_left-le :
    (max_tries : ℕ) (c : SendCommand) → attempts_left max_tries c ≤ 1 + allowed_tries max_tries
unfolding attempts_left
attempts_left-le max_tries c = attempts_in-le c.state (allowed_tries max_tries) c.tries_count

pub move-max_tries :
    (received : ℕ) (e e' : Ebus) → CommandMoves received e e' → e'.max_tries ≡ e.max_tries
unfolding set_command_state complete_command retry_command
move-max_tries received e _ (idle u) = refl
move-max_tries received e _ (started s r n l) = refl
move-max_tries received e _ (tied s ne cl) = refl
move-max_tries received e _ (sent s q a) = refl
move-max_tries received e _ (done d) = refl
move-max_tries received e _ (lost l) = refl
