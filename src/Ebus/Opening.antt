-- ===== src/Ebus/Opening.antt =====
-- The first two bytes of a conversation: `process_received_char` of esphome/components/ebus/ebus.cpp
-- starts a command at a SYN, and sends its rest when its address has come back.
use mathlib.Core.List.{append-nil}
use esphome.Prelude.{
  ℕ, ◌≤◌, ◌≡◌, ◌≢◌, refl, ap, ap₂, ◌∙◌, true, false, List, [], ◌∷◌, ◌++◌, some, arith,
}
use esphome.Telegram.{
  TelegramState, wait_for_send, wait_for_arbitration, wait_for_request_ack, wait_for_response_ack,
  wait_for_command_ack, wait_for_request_data, syn, esc, get_qq, is_ack_expected,
}
use esphome.Telegram.Received.{Telegram}
use esphome.Telegram.Command.{SendCommand, command_to_state}
use esphome.Ebus.{Ebus, Effect, normal, uart_send_char, uart_send_remaining_request_part}
use esphome.Ebus.Receive.{receive_char}
use esphome.Ebus.Active.{
  advance_in, advance_command, is_normal, set_command_state, send_command_rest,
}
use esphome.Ebus.Process.{unescape, process_received_char, track_syn}
use esphome.Ebus.Receiver.{fresh_telegram}
use esphome.Ebus.Phases.{closed_state, track_syn-at_syn}
use esphome.Ebus.Sending.{on_wire}
use esphome.Ebus.Says.{nothing_queued, Says, real_byte-Says}
use esphome.Ebus.Settled.{SameDriver, answer_to-next, answer_to-none, track_syn-same}

-- A byte that puts the command into the state `s`, and makes the driver send.
pub record Speaks (byte : ℕ) (e : Ebus) (t : Telegram) (s : TelegramState) (bytes : List ℕ)
    : Type 0 where
  pub next : Ebus
  pub effects : List Effect
  pub returns : process_received_char nothing_queued byte e ≡ some (next, effects)
  pub command : next.active_command ≡ command_to_state s e.active_command
  pub same_driver : SameDriver e next
  pub received : (next.in_esc ≡ false) × (next.receiving_telegram ≡ t)
  pub sent : on_wire effects ≡ bytes

-- The driver at the second switch.
abbrev at_switch : ℕ → Ebus → Telegram → Ebus
at_switch byte e t = record (track_syn byte (closed_state e)) { receiving_telegram = t }

speaks :
    (byte : ℕ) (e : Ebus) (t : Telegram) (s : TelegramState) (effects : List Effect)
    → Says byte e t
    → advance_command byte (at_switch byte e t)
      ≡ (set_command_state s (at_switch byte e t), effects)
    → t.state ≢ wait_for_request_ack
    → t.state ≢ wait_for_response_ack
    → Speaks byte e t s (on_wire effects)
unfolding set_command_state
speaks byte e t s effects says advanced no_request no_response =
    let tracked = track_syn-same byte (closed_state e) in
    let is = says.next_is ∙ ap (λ r. r.0) advanced in
    let same : SameDriver e says.next = (
      ap (λ e. e.primary_address) is ∙ tracked.0.0,
      ap (λ e. e.send_response_handlers) is ∙ tracked.0.1,
      ap (λ e. e.queues_received_telegrams) is ∙ tracked.0.2,
    ) in
    let heard = ap (λ e. e.receiving_telegram) is in
    record {
      next = says.next;
      effects = says.effects;
      returns = says.returns;
      command = ap (λ e. e.active_command) is ∙ ap (command_to_state s) tracked.1;
      same_driver = same;
      received = (ap (λ e. e.in_esc) is ∙ tracked.2, heard);
      sent =
          says.sent
          ∙ ap₂ (◌++◌) (ap (λ r. on_wire r.1) advanced)
              (answer_to-next e says.next t same heard ∙ answer_to-none e t no_request no_response)
          ∙ append-nil (on_wire effects);
    }

start_switch :
    (e : Ebus)
    → e.state ≡ normal
    → e.lock_counter ≡ 0
    → advance_in wait_for_send syn e ≡ (
      set_command_state wait_for_arbitration e,
      uart_send_char (get_qq e.active_command.base) ∷ [],
    )
unfolding advance_in is_normal
start_switch e quiet down = rw (quiet, down) refl

win_switch :
    (e : Ebus) (c : SendCommand)
    → e.active_command ≡ c
    → is_ack_expected c.base ≡ true
    → advance_in wait_for_arbitration (get_qq c.base) e
      ≡ (set_command_state wait_for_command_ack e, uart_send_remaining_request_part c)
unfolding advance_in send_command_rest
win_switch e c same expected = ground (
  arith,
  ap (λ c. get_qq c.base) same,
  ap (λ c. is_ack_expected c.base) same,
  ap uart_send_remaining_request_part same,
  expected,
)

-- At a SYN, the address of the command goes out.
pub syn-Speaks :
    (e : Ebus) (t : Telegram) (c : SendCommand)
    → e.active_command ≡ c
    → c.state ≡ wait_for_send
    → e.lock_counter ≤ 1
    → e.char_count_since_last_syn ≢ 1
    → e.in_esc ≡ false
    → receive_char syn syn (fresh_telegram e.receiving_telegram) ≡ some t
    → t.state ≡ wait_for_arbitration
    → Speaks syn e t wait_for_arbitration (on_wire (uart_send_char (get_qq c.base) ∷ []))
unfolding advance_command
syn-Speaks e t c same state low quiet closed r arbitrating =
    let tracked = track_syn-same syn (closed_state e) in
    let at_syn = track_syn-at_syn (closed_state e) quiet in
    speaks syn e t wait_for_arbitration (uart_send_char (get_qq c.base) ∷ [])
      (real_byte-Says syn syn e t (unfold unescape in ground (arith, closed)) r)
      (rw (ap (λ c. c.state) (tracked.1 ∙ same) ∙ state) (
        start_switch (at_switch syn e t) at_syn.3 (at_syn.0 ∙ omega (arith, low))
        ∙ ap
            (λ c. (
              set_command_state wait_for_arbitration (at_switch syn e t),
              uart_send_char (get_qq c.base) ∷ [],
            ))
            (tracked.1 ∙ same)))
      (ground (arith, arbitrating)) (ground (arith, arbitrating))

-- When the address has come back, the rest goes out.
pub address-Speaks :
    (e : Ebus) (t : Telegram) (c : SendCommand)
    → e.active_command ≡ c
    → c.state ≡ wait_for_arbitration
    → is_ack_expected c.base ≡ true
    → get_qq c.base ≢ esc
    → e.in_esc ≡ false
    → receive_char (get_qq c.base) (get_qq c.base) (fresh_telegram e.receiving_telegram) ≡ some t
    → t.state ≡ wait_for_request_data
    → Speaks (get_qq c.base) e t wait_for_command_ack (on_wire (uart_send_remaining_request_part c))
unfolding advance_command
address-Speaks e t c same state expected plain closed r begun =
    let qq : ℕ = get_qq c.base in
    let tracked = track_syn-same qq (closed_state e) in
    speaks qq e t wait_for_command_ack (uart_send_remaining_request_part c)
      (real_byte-Says qq qq e t (unfold unescape in ground (arith, closed, plain)) r)
      (rw (ap (λ c. c.state) (tracked.1 ∙ same) ∙ state)
        (win_switch (at_switch qq e t) c (tracked.1 ∙ same) expected))
      (ground (arith, begun)) (ground (arith, begun))
