-- ===== src/Ebus/Runs.antt =====
-- Runs of `process_received_char` of esphome/components/ebus/ebus.cpp on bytes, in which no other
-- command is dequeued.
use esphome.Prelude.{ℕ, ◌+◌, ◌≡◌, ◌∙◌, Option, some, none, arith, List, [], ◌∷◌}
use esphome.Ebus.{Ebus, Effect}
use esphome.Ebus.Process.{process_received_char, flush_telegram, track_syn, fetch_command, prepare}
use esphome.Ebus.Attempts.{starts}

-- A part of `process_received_char` that leaves the command and its limit alone.
abbrev pub Keeps : Ebus → Ebus → Type 0
Keeps e e' = (e'.active_command ≡ e.active_command) × (e'.max_tries ≡ e.max_tries)

track_syn-Keeps : (received : ℕ) (e : Ebus) → Keeps e (track_syn received e)
unfolding track_syn
track_syn-Keeps received e = ground arith

flush_telegram-Keeps : (e : Ebus) → Keeps e (flush_telegram e).0
unfolding flush_telegram
flush_telegram-Keeps e = ground arith

fetch_command-Keeps : (e : Ebus) → Keeps e (fetch_command (some none) e).0
unfolding fetch_command
fetch_command-Keeps e = ground arith

pub prepare-Keeps : (received : ℕ) (e : Ebus) → Keeps e (prepare (some none) received e).0
unfolding prepare
prepare-Keeps received e = (
  (fetch_command-Keeps flushed).0
      ∙ (flush_telegram-Keeps tracked).0
      ∙ (track_syn-Keeps received e).0,
  (fetch_command-Keeps flushed).1
      ∙ (flush_telegram-Keeps tracked).1
      ∙ (track_syn-Keeps received e).1,
)
  where
    tracked : Ebus
    tracked = track_syn received e

    flushed : Ebus
    flushed = (flush_telegram tracked).0

-- A run on the bytes, with an empty queue of commands: how often a command is started.
unfoldable pub after : Ebus → Option (Ebus × List Effect) → Ebus
after e none = e
after e (some (e', effects)) = e'

unfoldable pub attempts : List ℕ → Ebus → ℕ
attempts [] e = 0
attempts (byte ∷ bytes) e =
    let next = after e (process_received_char (some none) byte e) in
    starts e.active_command.state next.active_command.state + attempts bytes next
