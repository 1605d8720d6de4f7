-- ===== src/Ebus/Switched.antt =====
-- What the second `switch` of `process_received_char` of esphome/components/ebus/ebus.cpp does to a
-- command in one of the phases to its completion.
use esphome.Prelude.{ℕ, suc, ◌≡◌, ◌≢◌, ap, sym, subst, ◌∙◌, true, arith}
use esphome.Telegram.{
  TelegramState, wait_for_send, wait_for_arbitration, wait_for_command_ack, end_completed, syn, ack,
  get_qq, is_ack_expected, get_type, get_zz,
}
use esphome.Telegram.Received.{Telegram}
use esphome.Telegram.Command.{SendCommand, command_to_state}
use esphome.Ebus.{Ebus, normal}
use esphome.Ebus.Active.{
  advance_in, advance_command, is_normal, set_command_state, complete_command, send_command_rest,
}
use esphome.Ebus.Phases.{Phase, Phase-state}

pub with_telegram :
    {s : TelegramState} {c : SendCommand} {lock max_lock : ℕ} {e : Ebus} (t : Telegram)
    → Phase s c lock max_lock e
    → Phase s c lock max_lock (record e { receiving_telegram = t })
with_telegram t h = record {
  command = h.command;
  locked = h.locked;
  max_locked = h.max_locked;
  closed = h.closed;
}

-- What the second `switch` does to a command in a phase.
pub in_state :
    (P : Ebus → Type 0) {s : TelegramState} {c : SendCommand} {lock max_lock : ℕ} {e : Ebus}
    (received : ℕ)
    → Phase s c lock max_lock e
    → P (advance_in s received e).0
    → P (advance_command received e).0
unfolding advance_command
in_state P {e = e} received h p = subst (λ s. P (advance_in s received e).0) (sym (Phase-state h)) p

set_command_state-Phase :
    {s : TelegramState} {c : SendCommand} {lock max_lock : ℕ} {e : Ebus} (s' : TelegramState)
    → Phase s c lock max_lock e
    → Phase s' c lock max_lock (set_command_state s' e)
unfolding set_command_state command_to_state
set_command_state-Phase s' h = record {
  command = ap (command_to_state s') h.command;
  locked = h.locked;
  max_locked = h.max_locked;
  closed = h.closed;
}

module _ {c : SendCommand} {max_lock : ℕ} {e : Ebus} where
  pub waits :
      {lock : ℕ}
      → Phase wait_for_send c (suc lock) max_lock e
      → (advance_in wait_for_send syn e).0 ≡ e
  unfolding advance_in
  waits h = ground (arith, h.locked)

  pub starts :
      Phase wait_for_send c 0 max_lock e
      → e.state ≡ normal
      → Phase wait_for_arbitration c 0 max_lock (advance_in wait_for_send syn e).0
  starts h quiet =
      subst (Phase wait_for_arbitration c 0 max_lock) (sym begun)
        (set_command_state-Phase wait_for_arbitration h)
    where
      begun : (advance_in wait_for_send syn e).0 ≡ set_command_state wait_for_arbitration e
      begun = unfold advance_in is_normal in ground (arith, h.locked, quiet)

  pub wins :
      {lock : ℕ}
      → Phase wait_for_arbitration c lock max_lock e
      → is_ack_expected c.base ≡ true
      → Phase wait_for_command_ack c lock max_lock
          (advance_in wait_for_arbitration (get_qq c.base) e).0
  wins {lock} h expected =
      subst (Phase wait_for_command_ack c lock max_lock) (sym won)
        (set_command_state-Phase wait_for_command_ack h)
    where
      same_qq : get_qq e.active_command.base ≡ get_qq c.base
      same_qq = unfold command_to_state get_qq in ap (λ c. get_qq c.base) h.command

      acknowledged : is_ack_expected e.active_command.base ≡ true
      acknowledged =
          unfold command_to_state is_ack_expected get_type get_zz in
          ap (λ c. is_ack_expected c.base) h.command ∙ expected

      won :
          (advance_in wait_for_arbitration (get_qq c.base) e).0
          ≡ set_command_state wait_for_command_ack e
      won = unfold advance_in send_command_rest in ground (arith, same_qq, acknowledged)

  pub echoes :
      {lock : ℕ}
      → Phase wait_for_command_ack c lock max_lock e
      → (byte : ℕ) → byte ≢ ack
      → byte ≢ syn
      → (advance_in wait_for_command_ack byte e).0 ≡ e
  unfolding advance_in
  echoes h byte a s = ground arith

  pub completes :
      {lock : ℕ}
      → Phase wait_for_command_ack c lock max_lock e
      → Phase end_completed c max_lock max_lock (advance_in wait_for_command_ack ack e).0
  unfolding advance_in complete_command
  completes h =
      let done = set_command_state-Phase end_completed h in
      record {
        command = done.command;
        locked = h.max_locked;
        max_locked = h.max_locked;
        closed = h.closed;
      }
