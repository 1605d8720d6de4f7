-- ===== src/Ebus/Steps.antt =====
-- The steps of a command in `process_received_char` of esphome/components/ebus/ebus.cpp that lead to
-- its completion.
use esphome.Prelude.{
  ℕ, suc, ◌-◌, ◌≤◌, ◌≡◌, ◌≢◌, refl, ap, sym, subst, ◌∙◌, Bool, true, false, not, ◌&&◌, ◌==◌,
  Bool-cases, inl, inr, ◌⊎◌, Option, arith,
}
use esphome.Telegram.{
  TelegramState, wait_for_send, wait_for_arbitration, wait_for_command_ack, end_completed, syn, esc,
  ack, get_qq, is_ack_expected, is_finished,
}
use esphome.Telegram.Command.{SendCommand, command_to_state}
use esphome.Ebus.{Ebus}
use esphome.Ebus.Active.{advance_in}
use esphome.Ebus.Process.{
  unescape, real_byte, escape_begins, invalid_sequence, process_received_char, process_unescaped,
}
use esphome.Ebus.Phases.{
  Then, closed_state, ready, byte-Then, Phase, closing, ready-at_syn, ready-at_byte,
}
use esphome.Ebus.Switched.{with_telegram, in_state, waits, starts, wins, echoes, completes}

-- A byte outside an escape, or the last of one.
pub step :
    (P : Ebus → Type 0) (dequeue : Option (Option SendCommand)) {s : TelegramState}
    {c : SendCommand} {lock max_lock : ℕ} (e : Ebus) (received real : ℕ)
    → unescape e.in_esc received ≡ real_byte real
    → Phase s c lock max_lock (ready dequeue e received)
    → ((r : Ebus)
        → Phase s c lock max_lock r
        → r.state ≡ (ready dequeue e received).state
        → r.char_count_since_last_syn ≡ (ready dequeue e received).char_count_since_last_syn
        → P (advance_in s received r).0)
    → Then P (process_received_char dequeue received e)
step P dequeue e received real u phase next =
    byte-Then P dequeue received real e u
      (λ t. in_state P received (with_telegram t phase) (next _ (with_telegram t phase) refl refl))

module _ (dequeue : Option (Option SendCommand)) {c : SendCommand} {lock max_lock : ℕ}
    {e : Ebus} where
  -- The command waits on while the lock counts down.
  pub syn-Waits :
      Phase wait_for_send c (suc (suc lock)) max_lock e
      → e.char_count_since_last_syn ≢ 1
      → Then
          (λ e'. Phase wait_for_send c (suc lock) max_lock e' × (e'.char_count_since_last_syn ≢ 1))
          (process_received_char dequeue syn e)
  syn-Waits h quiet =
      let tracked =
        ready-at_syn dequeue e (closing h) (unfold is_finished command_to_state in refl) quiet in
      let down : suc (suc lock) - 1 ≡ suc lock = omega arith in
      step _ dequeue e syn syn (unfold unescape in ground (arith, h.closed))
        (subst (λ n. Phase wait_for_send c n max_lock (ready dequeue e syn)) down tracked.0)
        (λ r p state count.
          subst
            (λ e'.
              Phase wait_for_send c (suc lock) max_lock e' × (e'.char_count_since_last_syn ≢ 1))
            (sym (waits p)) (p, omega (arith, count, tracked.2)))

  -- When the lock is down, the command is started.
  pub syn-Starts :
      Phase wait_for_send c lock max_lock e
      → lock ≤ 1
      → e.char_count_since_last_syn ≢ 1
      → Then (Phase wait_for_arbitration c 0 max_lock) (process_received_char dequeue syn e)
  syn-Starts h low quiet =
      let tracked =
        ready-at_syn dequeue e (closing h) (unfold is_finished command_to_state in refl) quiet in
      let down : lock - 1 ≡ 0 = omega (arith, low) in
      step _ dequeue e syn syn (unfold unescape in ground (arith, h.closed))
        (subst (λ n. Phase wait_for_send c n max_lock (ready dequeue e syn)) down tracked.0)
        (λ r p state count. starts p (state ∙ tracked.1))

  -- Its own address comes back: the rest is sent.
  pub address-Wins :
      Phase wait_for_arbitration c lock max_lock e
      → get_qq c.base ≢ syn
      → get_qq c.base ≢ esc
      → is_ack_expected c.base ≡ true
      → Then
          (Phase wait_for_command_ack c lock max_lock)
          (process_received_char dequeue (get_qq c.base) e)
  address-Wins h other plain expected =
      step _ dequeue e (get_qq c.base) (get_qq c.base) (unfold unescape in ground (arith, h.closed))
        (ready-at_byte dequeue e (closing h) (unfold is_finished command_to_state in refl)
          (get_qq c.base) other)
        (λ r p state count. wins p expected)

  -- It is acknowledged.
  pub ack-Completes :
      Phase wait_for_command_ack c lock max_lock e
      → Then (Phase end_completed c max_lock max_lock) (process_received_char dequeue ack e)
  ack-Completes h =
      step _ dequeue e ack ack (unfold unescape in ground (arith, h.closed))
        (ready-at_byte dequeue e (closing h) (unfold is_finished command_to_state in refl) ack
          (omega arith))
        (λ r p state count. completes p)

-- Whether an escape is open behind a byte.
abbrev pub opens : Bool → ℕ → Bool
opens open' byte = byte == esc && not open'

-- The command waits for its acknowledgement; an escape may be open.
abbrev pub Awaits : SendCommand → ℕ → ℕ → Bool → Ebus → Type 0
Awaits c lock max_lock open' e =
    Phase wait_for_command_ack c lock max_lock (closed_state e) × (e.in_esc ≡ open')

unescape-cases :
    (in_esc : Bool) (byte : ℕ)
    → ((unescape in_esc byte ≡ escape_begins) × (opens in_esc byte ≡ true))
      ⊎ (((unescape in_esc byte ≡ invalid_sequence) × (opens in_esc byte ≡ false))
          ⊎ (((real : ℕ) × (unescape in_esc byte ≡ real_byte real)) × (opens in_esc byte ≡ false)))
unfolding unescape
unescape-cases false byte = elim (Bool-cases (byte == esc)) [
  | inl e ↦ rw (e) (inl (refl, refl))
  | inr e ↦ rw (e) (inr (inr ((_, refl), refl)))
]
unescape-cases true byte =
    let never : (byte == esc && false) ≡ false = ground arith in
    rw (never) (elim (Bool-cases (byte == 0x00)) [
      | inl e ↦ rw (e) (inr (inr ((_, refl), refl)))
      | inr e ↦ rw (e) (elim (Bool-cases (byte == 0x01)) [
        | inl d ↦ rw (d) (inr (inr ((_, refl), refl)))
        | inr d ↦ rw (d) (inr (inl (refl, refl)))
      ])
    ])

-- While the command awaits its acknowledgement, other bytes leave it alone.
pub byte-Awaits :
    (dequeue : Option (Option SendCommand)) {c : SendCommand} {lock max_lock : ℕ} {open' : Bool}
    {e : Ebus}
    → Awaits c lock max_lock open' e
    → (byte : ℕ) → byte ≢ ack
    → byte ≢ syn
    → Then (Awaits c lock max_lock (opens open' byte)) (process_received_char dequeue byte e)
byte-Awaits dequeue {c} {lock} {max_lock} {open'} {e} h byte a s =
    elim (unescape-cases e.in_esc byte) [
      | inl (u, o) ↦ unfold process_received_char process_unescaped in rw (u) (h.0, sym o ∙ same)
      | inr (inl (u, o)) ↦
          unfold process_received_char process_unescaped in
          rw (u) (
            record {
              command = h.0.command;
              locked = h.0.locked;
              max_locked = h.0.max_locked;
              closed = refl;
            },
            sym o ∙ same,
          )
      | inr (inr ((real, u), o)) ↦
          step _ dequeue e byte real u
            (ready-at_byte dequeue e h.0 (unfold is_finished command_to_state in refl) byte s)
            (λ r p state count.
              subst (Awaits c lock max_lock (opens open' byte)) (sym (echoes p byte a s))
                (closing p, p.closed ∙ sym o ∙ same))
    ]
  where
    same : opens e.in_esc byte ≡ opens open' byte
    same = ap (λ b. opens b byte) h.1
