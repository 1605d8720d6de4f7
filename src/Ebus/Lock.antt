-- ===== src/Ebus/Lock.antt =====
-- The lock between two commands: `lock_counter_` over a run of `process_received_char` of
-- esphome/components/ebus/ebus.cpp, in which no other command is dequeued.
use esphome.Prelude.{
  ℕ, ◌+◌, ◌≤◌, ◌<◌, ◌≡◌, refl, sym, subst, ap, ap₂, ◌∙◌, false, if◌then◌else◌, ◌==◌, Option, some,
  none, ◌>>=◌, arith, List, [], ◌∷◌,
}
use esphome.Telegram.{syn, wait_for_send}
use esphome.Telegram.Received.{Telegram}
use esphome.Ebus.{Ebus, Effect}
use esphome.Ebus.Receive.{receive_char}
use esphome.Ebus.Active.{advance_in, advance_command}
use esphome.Ebus.Process.{
  unescape, Unescaped, real_byte, escape_begins, invalid_sequence, process_received_char,
  process_byte, flush_telegram, track_syn, fetch_command, process_unescaped, prepare, finish,
}
use esphome.Ebus.Attempts.{starts, starts-same}
use esphome.Ebus.Runs.{prepare-Keeps, after, attempts}

-- How many of the bytes are a SYN.
unfoldable pub syns : List ℕ → ℕ
syns [] = 0
syns (byte ∷ bytes) = (if byte == syn then 1 else 0) + syns bytes

-- The command waits to be sent, and the lock is above a number.
abbrev Waits : ℕ → Ebus → Type 0
Waits n e = (e.active_command.state ≡ wait_for_send) × (n < e.lock_counter)

track_syn-lock :
    (received : ℕ) (e : Ebus)
    → e.lock_counter ≤ (track_syn received e).lock_counter + (if received == syn then 1 else 0)
unfolding track_syn
track_syn-lock received e = ground arith

flush_telegram-lock : (e : Ebus) → (flush_telegram e).0.lock_counter ≡ e.lock_counter
unfolding flush_telegram
flush_telegram-lock e = ground arith

fetch_command-lock : (e : Ebus) → (fetch_command (some none) e).0.lock_counter ≡ e.lock_counter
unfolding fetch_command
fetch_command-lock e = ground arith

prepare-Waits :
    (n received : ℕ) (e : Ebus)
    → Waits ((if received == syn then 1 else 0) + n) e
    → Waits n (prepare (some none) received e).0
unfolding prepare
prepare-Waits n received e w = (
  ap (λ c. c.state) (prepare-Keeps received e).0 ∙ w.0,
  omega (
    arith,
    w.1,
    track_syn-lock received e,
    flush_telegram-lock (track_syn received e),
    fetch_command-lock (flush_telegram (track_syn received e)).0,
  ),
)

locked_in :
    (received : ℕ) (e : Ebus) → 0 < e.lock_counter → (advance_in wait_for_send received e).0 ≡ e
unfolding advance_in
locked_in received e h = ground arith

-- A command that waits behind the lock is left alone.
finish-Waits :
    (n received : ℕ) (before : List Effect) (e : Ebus)
    → Waits n e
    → Waits n (finish received before e).0
unfolding finish advance_command
finish-Waits n received before e w =
    subst (λ s. Waits n (advance_in s received e).0) (sym w.0)
      (subst (Waits n) (sym (locked_in received e (omega (arith, w.1)))) w)

-- The same of a result, if there is one.
abbrev StillWaits : ℕ → Option (Ebus × List Effect) → Type 0
StillWaits n none = Unit
StillWaits n (some (e, effects)) = Waits n e

finish-StillWaits :
    (n received : ℕ) (before : List Effect) (ready : Ebus) (r : Option Telegram)
    → Waits n ready
    → StillWaits n
        (r >>= λ t. some (finish received before (record ready { receiving_telegram = t })))
finish-StillWaits n received before ready none w = tt
finish-StillWaits n received before ready (some t) w =
    finish-Waits n received before (record ready { receiving_telegram = t }) w

process_unescaped-StillWaits :
    (u : Unescaped) (n received : ℕ) (e : Ebus)
    → Waits ((if received == syn then 1 else 0) + n) e
    → StillWaits n (process_unescaped u (some none) received e)
unfolding process_unescaped process_byte
process_unescaped-StillWaits escape_begins n received e w = (w.0, omega (arith, w.1))
process_unescaped-StillWaits invalid_sequence n received e w = (w.0, omega (arith, w.1))
process_unescaped-StillWaits (real_byte real) n received e w =
    finish-StillWaits n received _ ready (receive_char received real ready.receiving_telegram)
      (prepare-Waits n received (record e { in_esc = false }) w)
  where
    ready : Ebus
    ready = (prepare (some none) received (record e { in_esc = false })).0

after-Waits :
    (n : ℕ) (e : Ebus) (r : Option (Ebus × List Effect))
    → Waits n e
    → StillWaits n r
    → Waits n (after e r)
unfolding after
after-Waits n e none w v = w
after-Waits n e (some (e', effects)) w v = v

-- A command that waits is not started before the bytes hold as many SYN as the lock counts, while
-- no other command is queued.
pub attempts-locked :
    (bytes : List ℕ) (e : Ebus)
    → e.active_command.state ≡ wait_for_send
    → syns bytes < e.lock_counter
    → attempts bytes e ≡ 0
unfolding attempts syns
attempts-locked [] e s h = refl
attempts-locked (byte ∷ bytes) e s h =
    omega (arith, starts_none, attempts-locked bytes next next_waits.0 next_waits.1)
  where
    next : Ebus
    next = after e (process_received_char (some none) byte e)

    next_waits : Waits (syns bytes) next
    next_waits =
        unfold process_received_char in
        after-Waits (syns bytes) e (process_unescaped (unescape e.in_esc byte) (some none) byte e)
          (s, omega (arith, h))
          (process_unescaped-StillWaits (unescape e.in_esc byte) (syns bytes) byte e (s, h))

    starts_none : starts e.active_command.state next.active_command.state ≡ 0
    starts_none = ap₂ starts s next_waits.0 ∙ starts-same wait_for_send
