-- ===== src/Ebus/Retries.antt =====
-- How often a command is tried, over a run of `process_received_char` of
-- esphome/components/ebus/ebus.cpp, in which no other command is dequeued.
use esphome.Prelude.{
  ℕ, ◌+◌, ◌≤◌, ◌≡◌, refl, subst, ap, true, false, Option, some, none, ◌>>=◌, arith, List, [], ◌∷◌,
}
use esphome.Telegram.Received.{Telegram, new_telegram}
use esphome.Telegram.Command.{SendCommand}
use esphome.Ebus.{Ebus, Effect}
use esphome.Ebus.Receive.{receive_char}
use esphome.Ebus.Active.{advance_command}
use esphome.Ebus.Process.{
  unescape, Unescaped, real_byte, escape_begins, invalid_sequence, process_received_char,
  process_byte, process_unescaped, prepare, finish,
}
use esphome.Ebus.Arbitration.{advance_command-CommandMoves}
use esphome.Ebus.Attempts.{
  starts, starts-same, attempts_left, move-attempts, allowed_tries, attempts_left-le,
  move-max_tries,
}
use esphome.Ebus.Runs.{Keeps, prepare-Keeps, after, attempts}

-- What a byte costs: a start is one attempt less.
abbrev Spends : ℕ → SendCommand → Ebus → Type 0
Spends max_tries c e' =
    (starts c.state e'.active_command.state + attempts_left max_tries e'.active_command
      ≤ attempts_left max_tries c)
    × (e'.max_tries ≡ max_tries)

keep-Spends : (e e' : Ebus) → Keeps e e' → Spends e.max_tries e.active_command e'
keep-Spends e e' k = rw (k.0) (omega (arith, starts-same e.active_command.state), k.1)

advance_command-Spends :
    (received : ℕ) (e : Ebus) → Spends e.max_tries e.active_command (advance_command received e).0
advance_command-Spends received e = (
  move-attempts received e _ (advance_command-CommandMoves received e),
  move-max_tries received e _ (advance_command-CommandMoves received e),
)

finish-Spends :
    (received : ℕ) (before : List Effect) (e e' : Ebus)
    → Keeps e e'
    → Spends e.max_tries e.active_command (finish received before e').0
unfolding finish
finish-Spends received before e e' k =
    subst (λ c. Spends e.max_tries c (advance_command received e').0) k.0
      (subst (λ n. Spends n e'.active_command (advance_command received e').0) k.1
        (advance_command-Spends received e'))

-- The same of a result, if there is one.
abbrev Pays : ℕ → SendCommand → Option (Ebus × List Effect) → Type 0
Pays max_tries c none = Unit
Pays max_tries c (some (e', effects)) = Spends max_tries c e'

finish-Pays :
    (received : ℕ) (before : List Effect) (e ready : Ebus) (r : Option Telegram)
    → Keeps e ready
    → Pays e.max_tries e.active_command
        (r >>= λ t. some (finish received before (record ready { receiving_telegram = t })))
finish-Pays received before e ready none k = tt
finish-Pays received before e ready (some t) k =
    finish-Spends received before e (record ready { receiving_telegram = t }) k

process_unescaped-Pays :
    (u : Unescaped) (received : ℕ) (e : Ebus)
    → Pays e.max_tries e.active_command (process_unescaped u (some none) received e)
unfolding process_unescaped process_byte
process_unescaped-Pays escape_begins received e =
    keep-Spends e (record e { in_esc = true }) (refl, refl)
process_unescaped-Pays invalid_sequence received e =
    keep-Spends e (record e { in_esc = false; receiving_telegram = new_telegram }) (refl, refl)
process_unescaped-Pays (real_byte real) received e =
    finish-Pays received _ e ready (receive_char received real ready.receiving_telegram)
      (prepare-Keeps received (record e { in_esc = false }))
  where
    ready : Ebus
    ready = (prepare (some none) received (record e { in_esc = false })).0

after-Spends :
    (e : Ebus) (r : Option (Ebus × List Effect))
    → Pays e.max_tries e.active_command r
    → Spends e.max_tries e.active_command (after e r)
unfolding after
after-Spends e none p = keep-Spends e e (refl, refl)
after-Spends e (some (e', effects)) p = p

attempts-le_left :
    (bytes : List ℕ) (e : Ebus) → attempts bytes e ≤ attempts_left e.max_tries e.active_command
unfolding attempts
attempts-le_left [] e = omega arith
attempts-le_left (byte ∷ bytes) e = omega (
  arith,
  attempts-le_left bytes next,
  spent.0,
  ap (λ n. attempts_left n next.active_command) spent.1,
)
  where
    result : Option (Ebus × List Effect)
    result = process_received_char (some none) byte e

    next : Ebus
    next = after e result

    spent : Spends e.max_tries e.active_command next
    spent =
        unfold process_received_char in
        after-Spends e result (process_unescaped-Pays (unescape e.in_esc byte) byte e)

-- Whatever bytes are received while no other command is queued, the active command is started at
-- most once and then once for each try that `max_tries_` allows as an `int8_t`: with 128 or more
-- configured, at most once in all.
pub attempts-le : (bytes : List ℕ) (e : Ebus) → attempts bytes e ≤ 1 + allowed_tries e.max_tries
attempts-le bytes e =
    omega (arith, attempts-le_left bytes e, attempts_left-le e.max_tries e.active_command)
