-- ===== src/Ebus/Losses.antt =====
-- A byte of `process_received_char` of esphome/components/ebus/ebus.cpp at which a command loses its
-- arbitration or waits, and how the bytes are counted.
use esphome.Prelude.{
  ℕ, ◌+◌, ◌≡◌, ◌≢◌, refl, ap, sym, subst, ◌∙◌, false, ◌==◌, if◌then◌else◌, List, Option, some, none,
  arith, u8, int8, lt_int, pos,
}
use esphome.Elf.{get_priority_class}
use esphome.Telegram.{
  TelegramState, wait_for_send, wait_for_arbitration, wait_for_arbitration_2nd,
  wait_for_command_ack, end_send_failed, syn, esc, get_qq, is_finished,
}
use esphome.Telegram.Command.{SendCommand, command_to_state, can_retry}
use esphome.Ebus.{Ebus, Effect}
use esphome.Ebus.Active.{advance_in, advance_command, retry_command}
use esphome.Ebus.Process.{
  process_received_char, prepare, track_syn, flush_telegram, fetch_command, unescape,
}
use esphome.Ebus.Phases.{Then, Phase, closing, closed_state, ready, byte-Then, ready-at_byte}
use esphome.Ebus.Switched.{with_telegram, in_state}
use esphome.Ebus.Steps.{step}

-- The characters since the last SYN, and the limit of tries.
abbrev pub Counts : ℕ → ℕ → Ebus → Type 0
Counts n max_tries e = (e.char_count_since_last_syn ≡ n) × (e.max_tries ≡ max_tries)

advance_in-Counts :
    (s : TelegramState) (received : ℕ) (e : Ebus)
    → Counts e.char_count_since_last_syn e.max_tries (advance_in s received e).0
unfolding advance_in
advance_in-Counts wait_for_send received e = ground arith
advance_in-Counts wait_for_arbitration received e = ground arith
advance_in-Counts wait_for_arbitration_2nd received e = ground arith
advance_in-Counts wait_for_command_ack received e = ground arith
advance_in-Counts _ received e = (refl, refl)

flush_telegram-Counts :
    (e : Ebus) → Counts e.char_count_since_last_syn e.max_tries (flush_telegram e).0
unfolding flush_telegram
flush_telegram-Counts e = ground arith

fetch_command-Counts :
    (dequeue : Option (Option SendCommand)) (e : Ebus)
    → Counts e.char_count_since_last_syn e.max_tries (fetch_command dequeue e).0
unfolding fetch_command
fetch_command-Counts none e = (refl, refl)
fetch_command-Counts (some none) e = ground arith
fetch_command-Counts (some (some c)) e = ground arith

ready-Counts :
    (dequeue : Option (Option SendCommand)) (e : Ebus) (received : ℕ)
    → Counts
        (if received == syn then 0 else u8 (e.char_count_since_last_syn + 1))
        e.max_tries
        (ready dequeue e received)
unfolding prepare
ready-Counts dequeue e received =
    let tracked = track_syn received (closed_state e) in
    let flushed = flush_telegram-Counts tracked in
    let fetched = fetch_command-Counts dequeue (flush_telegram tracked).0 in
    (
      fetched.0 ∙ flushed.0 ∙ (unfold track_syn in ground arith),
      fetched.1 ∙ flushed.1 ∙ (unfold track_syn in ground arith),
    )

-- Every byte outside an escape is counted.
pub byte-Counts :
    (dequeue : Option (Option SendCommand)) (e : Ebus) (received : ℕ)
    → e.in_esc ≡ false
    → received ≢ esc
    → Then
        (Counts (if received == syn then 0 else u8 (e.char_count_since_last_syn + 1)) e.max_tries)
        (process_received_char dequeue received e)
byte-Counts dequeue e received closed plain =
    byte-Then _ dequeue received received e (unfold unescape in ground (arith, closed)) (λ t.
      let counted = ready-Counts dequeue e received in
      unfold advance_command in
      let kept =
        advance_in-Counts (ready dequeue e received).active_command.state received
          (record (ready dequeue e received) { receiving_telegram = t }) in
      (kept.0 ∙ counted.0, kept.1 ∙ counted.1))

pub Then-and :
    (P Q : Ebus → Type 0) (r : Option (Ebus × List Effect))
    → Then P r
    → Then Q r
    → Then (λ e. P e × Q e) r
Then-and P Q none p q = tt
Then-and P Q (some (e, effects)) p q = (p, q)

-- The command with one more try counted.
abbrev pub tried : SendCommand → SendCommand
tried c = record c { tries_count = u8 (c.tries_count + 1) }

-- The state behind a lost arbitration.
abbrev pub after_loss : ℕ → SendCommand → TelegramState
after_loss max_tries c =
    if lt_int (pos c.tries_count) (int8 max_tries) then wait_for_send else end_send_failed

retry_command-Phase :
    {c : SendCommand} {lock max_lock : ℕ} {e : Ebus}
    → Phase wait_for_arbitration c lock max_lock e
    → Phase (after_loss e.max_tries c) (tried c) lock max_lock (retry_command e)
unfolding retry_command can_retry command_to_state
retry_command-Phase {c} {e = e} h = record {
  command =
      ap
        (λ command.
          command_to_state
            (if lt_int (pos command.tries_count) (int8 e.max_tries)
              then wait_for_send
              else end_send_failed)
            (tried command))
        h.command;
  locked = h.locked;
  max_locked = h.max_locked;
  closed = h.closed;
}

module _ (dequeue : Option (Option SendCommand)) {c : SendCommand} {lock max_lock : ℕ}
    (e : Ebus) where
  -- Another byte than the own address, from another priority class: the arbitration is lost.
  pub byte-Loses :
      Phase wait_for_arbitration c lock max_lock e
      → (byte : ℕ) → byte ≢ syn
      → byte ≢ esc
      → byte ≢ get_qq c.base
      → (get_priority_class byte == get_priority_class (get_qq c.base)) ≡ false
      → Then
          (Phase (after_loss e.max_tries c) (tried c) lock max_lock)
          (process_received_char dequeue byte e)
  byte-Loses h byte s x q other =
      byte-Then _ dequeue byte byte e (unfold unescape in ground (arith, h.closed)) (λ t.
        let r : Ebus = record (ready dequeue e byte) { receiving_telegram = t } in
        let phase = with_telegram t (
          ready-at_byte dequeue e (closing h) (unfold is_finished command_to_state in refl) byte
            s) in
        let same_qq : get_qq r.active_command.base ≡ get_qq c.base =
          unfold command_to_state get_qq in ap (λ c. get_qq c.base) phase.command in
        let lost : (advance_in wait_for_arbitration byte r).0 ≡ retry_command r =
          unfold advance_in in ground (arith, same_qq, other) in
        in_state (Phase (after_loss e.max_tries c) (tried c) lock max_lock) byte phase (
          subst (Phase (after_loss e.max_tries c) (tried c) lock max_lock) (sym lost) (
            subst (λ m. Phase (after_loss m c) (tried c) lock max_lock (retry_command r))
              (ready-Counts dequeue e byte).1 (retry_command-Phase phase))))

  -- While it waits, bytes other than SYN leave the command alone.
  pub byte-Idles :
      Phase wait_for_send c lock max_lock e
      → (byte : ℕ) → byte ≢ syn
      → byte ≢ esc
      → Then (Phase wait_for_send c lock max_lock) (process_received_char dequeue byte e)
  byte-Idles h byte s x =
      step _ dequeue e byte byte (unfold unescape in ground (arith, h.closed))
        (ready-at_byte dequeue e (closing h) (unfold is_finished command_to_state in refl) byte s)
        (λ r p state count.
          let same : (advance_in wait_for_send byte r).0 ≡ r =
            unfold advance_in in ground (arith, s) in
          subst (Phase wait_for_send c lock max_lock) (sym same) p)
