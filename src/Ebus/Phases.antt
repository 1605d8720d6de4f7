-- ===== src/Ebus/Phases.antt =====
-- The phases of a command in `process_received_char` of esphome/components/ebus/ebus.cpp up to its
-- completion, and the part before the second `switch`.
use esphome.Prelude.{
  ℕ, ◌-◌, ◌≡◌, ◌≢◌, refl, ap, sym, subst, ◌∙◌, false, List, Option, some, none, ◌>>=◌, arith,
}
use esphome.Telegram.{TelegramState, syn, is_finished}
use esphome.Telegram.Received.{Telegram}
use esphome.Telegram.Command.{SendCommand, command_to_state}
use esphome.Ebus.{Ebus, Effect, normal}
use esphome.Ebus.Active.{advance_command, is_normal}
use esphome.Ebus.Process.{
  unescape, real_byte, process_received_char, process_byte, flush_telegram, track_syn,
  fetch_command, process_unescaped, prepare, finish, bus_state,
}

-- A property of the state that a step leaves, if it leaves one.
abbrev pub Then : (Ebus → Type 0) → Option (Ebus × List Effect) → Type 0
Then P none = Unit
Then P (some (e, effects)) = P e

finish-Then :
    (P : Ebus → Type 0) (received : ℕ) (before : List Effect) (ready : Ebus) (r : Option Telegram)
    → ((t : Telegram) → P (advance_command received (record ready { receiving_telegram = t })).0)
    → Then P (r >>= λ t. some (finish received before (record ready { receiving_telegram = t })))
unfolding finish
finish-Then P received before ready none h = tt
finish-Then P received before ready (some t) h = h t

-- The state with no escape open.
abbrev pub closed_state : Ebus → Ebus
closed_state e = record e { in_esc = false }

-- The state before the second `switch`.
abbrev pub ready : Option (Option SendCommand) → Ebus → ℕ → Ebus
ready dequeue e received = (prepare dequeue received (closed_state e)).0

-- A byte that is not part of an escape reaches the second `switch`.
pub byte-Then :
    (P : Ebus → Type 0) (dequeue : Option (Option SendCommand)) (received real : ℕ) (e : Ebus)
    → unescape e.in_esc received ≡ real_byte real
    → ((t : Telegram)
        → P
            (advance_command received
              (record (ready dequeue e received) { receiving_telegram = t })).0)
    → Then P (process_received_char dequeue received e)
unfolding process_received_char process_unescaped process_byte
byte-Then P dequeue received real e u h = rw (u) (
    finish-Then P received (prepare dequeue received (closed_state e)).1 (ready dequeue e received)
      _ h)

-- The command `c` is in a state, under a lock, outside an escape.
pub record Phase (s : TelegramState) (c : SendCommand) (lock max_lock : ℕ) (e : Ebus) : Type 0 where
  pub command : e.active_command ≡ command_to_state s c
  pub locked : e.lock_counter ≡ lock
  pub max_locked : e.max_lock_counter ≡ max_lock
  pub closed : e.in_esc ≡ false

-- The two states differ at most in the telegram that is received.
abbrev SameCommand : Ebus → Ebus → Type 0
SameCommand e e' =
    (e'.active_command ≡ e.active_command)
    × (e'.lock_counter ≡ e.lock_counter)
    × (e'.max_lock_counter ≡ e.max_lock_counter)
    × (e'.in_esc ≡ e.in_esc)
    × (e'.state ≡ e.state)
    × (e'.char_count_since_last_syn ≡ e.char_count_since_last_syn)

flush_telegram-SameCommand : (e : Ebus) → SameCommand e (flush_telegram e).0
unfolding flush_telegram
flush_telegram-SameCommand e = ground arith

fetch_command-busy :
    (dequeue : Option (Option SendCommand)) (e : Ebus)
    → is_finished e.active_command.base ≡ false
    → (fetch_command dequeue e).0 ≡ e
unfolding fetch_command
fetch_command-busy none e busy = refl
fetch_command-busy (some none) e busy = rw (busy)
fetch_command-busy (some (some c)) e busy = rw (busy)

track_syn-command :
    (received : ℕ) (e : Ebus) → (track_syn received e).active_command ≡ e.active_command
unfolding track_syn
track_syn-command received e = ground arith

prepare-SameCommand :
    (dequeue : Option (Option SendCommand)) (received : ℕ) (e : Ebus)
    → is_finished e.active_command.base ≡ false
    → SameCommand (track_syn received e) (prepare dequeue received e).0
unfolding prepare
prepare-SameCommand dequeue received e busy =
    let kept = flush_telegram-SameCommand (track_syn received e) in
    subst (SameCommand (track_syn received e))
      (sym (
        fetch_command-busy dequeue (flush_telegram (track_syn received e)).0
          (ap (λ c. is_finished c.base) (kept.0 ∙ track_syn-command received e) ∙ busy)))
      kept

pub track_syn-at_syn :
    (e : Ebus)
    → e.char_count_since_last_syn ≢ 1
    → ((track_syn syn e).lock_counter ≡ e.lock_counter - 1)
      × ((track_syn syn e).max_lock_counter ≡ e.max_lock_counter)
      × ((track_syn syn e).in_esc ≡ e.in_esc)
      × ((track_syn syn e).state ≡ normal)
      × ((track_syn syn e).char_count_since_last_syn ≡ 0)
unfolding track_syn bus_state is_normal
track_syn-at_syn e quiet = ground arith

track_syn-at_byte :
    (received : ℕ) (e : Ebus)
    → received ≢ syn
    → ((track_syn received e).lock_counter ≡ e.lock_counter)
      × ((track_syn received e).max_lock_counter ≡ e.max_lock_counter)
      × ((track_syn received e).in_esc ≡ e.in_esc)
unfolding track_syn
track_syn-at_byte received e other = ground arith

pub closing :
    {s : TelegramState} {c : SendCommand} {lock max_lock : ℕ} {e : Ebus}
    → Phase s c lock max_lock e
    → Phase s c lock max_lock (closed_state e)
closing h = record {
  command = h.command;
  locked = h.locked;
  max_locked = h.max_locked;
  closed = refl;
}

module _ (dequeue : Option (Option SendCommand)) {s : TelegramState} {c : SendCommand}
    {lock max_lock : ℕ} (e : Ebus) (h : Phase s c lock max_lock (closed_state e))
    (busy : is_finished (command_to_state s c).base ≡ false) where
  ready-SameCommand :
      (received : ℕ) → SameCommand (track_syn received (closed_state e)) (ready dequeue e received)
  ready-SameCommand received =
      prepare-SameCommand dequeue received (closed_state e)
        (ap (λ c. is_finished c.base) h.command ∙ busy)

  -- A SYN on a quiet bus counts the lock down.
  pub ready-at_syn :
      e.char_count_since_last_syn ≢ 1
      → Phase s c (lock - 1) max_lock (ready dequeue e syn)
        × ((ready dequeue e syn).state ≡ normal)
        × ((ready dequeue e syn).char_count_since_last_syn ≡ 0)
  ready-at_syn quiet =
      let same = ready-SameCommand syn in
      let tracked = track_syn-at_syn (closed_state e) quiet in
      (
        record {
          command = same.0 ∙ track_syn-command syn (closed_state e) ∙ h.command;
          locked = same.1 ∙ tracked.0 ∙ ap (λ n. n - 1) h.locked;
          max_locked = same.2 ∙ tracked.1 ∙ h.max_locked;
          closed = same.3 ∙ tracked.2;
        },
        same.4 ∙ tracked.3,
        same.5 ∙ tracked.4,
      )

  pub ready-at_byte :
      (received : ℕ) → received ≢ syn → Phase s c lock max_lock (ready dequeue e received)
  ready-at_byte received other =
      let same = ready-SameCommand received in
      let tracked = track_syn-at_byte received (closed_state e) other in
      record {
        command = same.0 ∙ track_syn-command received (closed_state e) ∙ h.command;
        locked = same.1 ∙ tracked.0 ∙ h.locked;
        max_locked = same.2 ∙ tracked.1 ∙ h.max_locked;
        closed = same.3 ∙ tracked.2;
      }

pub Phase-state :
    {s : TelegramState} {c : SendCommand} {lock max_lock : ℕ} {e : Ebus}
    → Phase s c lock max_lock e
    → e.active_command.state ≡ s
unfolding command_to_state
Phase-state h = ap (λ c. c.state) h.command
