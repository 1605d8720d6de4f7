-- ===== src/Ebus/Says.antt =====
-- What `process_received_char` of esphome/components/ebus/ebus.cpp sends at a byte while no other
-- command is queued, from the telegram that the byte leaves.

use esphome.Prelude.{ℕ, ◌≡◌, refl, ◌∙◌, List, [], ◌++◌, Option, some, none, arith}
use esphome.Telegram.Received.{Telegram}
use esphome.Telegram.Command.{SendCommand}
use esphome.Ebus.{Ebus, Effect, handle_response}
use esphome.Ebus.Receive.{receive_char}
use esphome.Ebus.Active.{advance_command}
use esphome.Ebus.Process.{
  unescape, real_byte, process_received_char, process_unescaped, process_byte, flush_telegram,
  track_syn, fetch_command, prepare, finish, acknowledge,
}
use esphome.Ebus.Receiver.{fresh_telegram}
use esphome.Ebus.Phases.{closed_state}
use esphome.Ebus.Sending.{on_wire, on_wire-append}

-- The callback for the next command is set, and has none.
abbrev pub nothing_queued : Option (Option SendCommand)
nothing_queued = some none

fetch_command-nothing :
    (e : Ebus)
    → ((fetch_command nothing_queued e).0 ≡ e) × (on_wire (fetch_command nothing_queued e).1 ≡ [])
unfolding fetch_command
fetch_command-nothing e = ground arith

-- The driver in front of its two switches.
abbrev pub in_front : ℕ → Ebus → Ebus
in_front received e = record (track_syn received e) {
  receiving_telegram = fresh_telegram e.receiving_telegram;
}

flush_telegram-in_front :
    (received : ℕ) (e : Ebus)
    → ((flush_telegram (track_syn received e)).0 ≡ in_front received e)
      × (on_wire (flush_telegram (track_syn received e)).1 ≡ [])
unfolding flush_telegram track_syn fresh_telegram
flush_telegram-in_front received e = ground arith

prepare-in_front :
    (received : ℕ) (e : Ebus)
    → ((prepare nothing_queued received e).0 ≡ in_front received e)
      × (on_wire (prepare nothing_queued received e).1 ≡ [])
unfolding prepare
prepare-in_front received e =
    let flushed = flush_telegram-in_front received e in
    let fetched = fetch_command-nothing (flush_telegram (track_syn received e)).0 in
    (
      fetched.0 ∙ flushed.0,
      on_wire-append (flush_telegram (track_syn received e)).1 _ ∙ rw (flushed.1, fetched.1) refl,
    )

-- What the driver does at a byte that leaves the telegram `t`.
pub record Says (received : ℕ) (e : Ebus) (t : Telegram) : Type 0 where
  pub next : Ebus
  pub effects : List Effect
  pub returns : process_received_char nothing_queued received e ≡ some (next, effects)
  pub next_is :
      next
      ≡ (advance_command received
          (record (track_syn received (closed_state e)) { receiving_telegram = t })).0
  pub sent :
      on_wire effects
      ≡ on_wire (
          (advance_command received
            (record (track_syn received (closed_state e)) { receiving_telegram = t })).1)
        ++ (on_wire (acknowledge next) ++ on_wire (handle_response next next.receiving_telegram))

finish-Says :
    (received : ℕ) (before : List Effect) (ready : Ebus)
    → on_wire before ≡ []
    → on_wire (finish received before ready).1
      ≡ on_wire (advance_command received ready).1
        ++ (on_wire (acknowledge (advance_command received ready).0)
            ++ on_wire (
                handle_response
                  (advance_command received ready).0
                  (advance_command received ready).0.receiving_telegram))
unfolding finish
finish-Says received before ready quiet =
    let next = (advance_command received ready).0 in
    on_wire-append before _
    ∙ rw
        (
          quiet,
          on_wire-append (advance_command received ready).1
              (acknowledge next ++ handle_response next next.receiving_telegram),
          on_wire-append (acknowledge next) (handle_response next next.receiving_telegram),
        )
        refl

pub real_byte-Says :
    (received real : ℕ) (e : Ebus) (t : Telegram)
    → unescape e.in_esc received ≡ real_byte real
    → receive_char received real (fresh_telegram e.receiving_telegram) ≡ some t
    → Says received e t
unfolding process_received_char process_unescaped process_byte finish
real_byte-Says received real e t u r =
    let prepared = prepare-in_front received (closed_state e) in
    let done =
      finish received (prepare nothing_queued received (closed_state e)).1
        (record (track_syn received (closed_state e)) { receiving_telegram = t }) in
    record {
      next = done.0;
      effects = done.1;
      returns = rw (u, prepared.0, r) refl;
      next_is = refl;
      sent =
          finish-Says received (prepare nothing_queued received (closed_state e)).1
            (record (track_syn received (closed_state e)) { receiving_telegram = t }) prepared.1;
    }
