-- ===== src/Zebus/Kept.antt =====
-- What `process_received_char` of esphome/components/zebus/include/ebus.cpp keeps outside of its first
-- `switch`.
use esphome.Prelude.{ℕ, ◌≡◌, refl, ap, ◌∙◌, if◌then◌else◌, Option, some, none, arith}
use esphome.Telegram.{
  TelegramState, wait_for_send, wait_for_arbitration, wait_for_arbitration_2nd,
  wait_for_command_ack,
}
use esphome.Telegram.Received.{Telegram}
use esphome.Telegram.Command.{SendCommand}
use esphome.Zebus.Telegram.{initial_telegram, is_finished}
use esphome.Zebus.Driver.{Ebus}
use esphome.Zebus.Active.{drive_in}
use esphome.Zebus.Process.{before_switches, count_syn, hand_over_telegram, next_active}

-- What the code before and behind the first `switch` keeps.
abbrev pub Keeps : Ebus → Ebus → Type 0
Keeps e e' =
    (e'.receiving_telegram ≡ e.receiving_telegram)
    × (e'.send_response_handlers ≡ e.send_response_handlers)

pub drive_in-Keeps :
    (s : TelegramState) (received : ℕ) (e : Ebus) → Keeps e (drive_in s received e).0
unfolding drive_in
drive_in-Keeps wait_for_send received e = ground arith
drive_in-Keeps wait_for_arbitration received e = ground arith
drive_in-Keeps wait_for_arbitration_2nd received e = ground arith
drive_in-Keeps wait_for_command_ack received e = ground arith
drive_in-Keeps _ received e = (refl, refl)

count_syn-Keeps : (received : ℕ) (e : Ebus) → Keeps e (count_syn received e)
unfolding count_syn
count_syn-Keeps received e = ground arith

next_active-Keeps :
    (dequeue : Option (Option SendCommand)) (e : Ebus) → Keeps e (next_active dequeue e).0
unfolding next_active
next_active-Keeps none e = (refl, refl)
next_active-Keeps (some none) e = ground arith
next_active-Keeps (some (some c)) e = ground arith

-- The telegram that the byte belongs to.
unfoldable pub current_telegram : Telegram → Telegram
current_telegram t = if is_finished t.base then initial_telegram else t

hand_over-Keeps :
    (e : Ebus)
    → ((hand_over_telegram e).0.receiving_telegram ≡ current_telegram e.receiving_telegram)
      × ((hand_over_telegram e).0.send_response_handlers ≡ e.send_response_handlers)
unfolding hand_over_telegram current_telegram
hand_over-Keeps e = ground arith

pub before_switches-Keeps :
    (dequeue : Option (Option SendCommand)) (received : ℕ) (e : Ebus)
    → ((before_switches dequeue received e).0.receiving_telegram
        ≡ current_telegram e.receiving_telegram)
      × ((before_switches dequeue received e).0.send_response_handlers ≡ e.send_response_handlers)
unfolding before_switches
before_switches-Keeps dequeue received e =
    (fetched.0 ∙ flushed.0 ∙ ap current_telegram counted.0, fetched.1 ∙ flushed.1 ∙ counted.1)
  where
    counted : Keeps e (count_syn received e)
    counted = count_syn-Keeps received e

    flushed :
        ((hand_over_telegram (count_syn received e)).0.receiving_telegram
          ≡ current_telegram (count_syn received e).receiving_telegram)
        × ((hand_over_telegram (count_syn received e)).0.send_response_handlers
            ≡ (count_syn received e).send_response_handlers)
    flushed = hand_over-Keeps (count_syn received e)

    fetched :
        Keeps
          (hand_over_telegram (count_syn received e)).0
          (next_active dequeue (hand_over_telegram (count_syn received e)).0).0
    fetched = next_active-Keeps dequeue (hand_over_telegram (count_syn received e)).0
