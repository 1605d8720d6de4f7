-- ===== src/Ebus/Sends.antt =====
-- The parts of a command among all that `process_received_char` of esphome/components/ebus/ebus.cpp
-- sends on its way to the command's completion.
use mathlib.Core.List.{append_assoc}
use esphome.Prelude.{
  ℕ, zero, suc, ◌+◌, ◌-◌, ◌≤◌, ◌≡◌, ◌≢◌, refl, ap, sym, ◌∙◌, List, [], ◌∷◌, ◌++◌, Option, some,
  none, ◌>>=◌, arith,
}
use esphome.Telegram.{
  TelegramState, wait_for_send, wait_for_arbitration, syn, esc, get_qq, get_zz, get_pb, get_sb,
  get_nn, get_request_byte, is_finished,
}
use esphome.Telegram.Received.{Telegram}
use esphome.Telegram.Command.{SendCommand, command_to_state, get_crc}
use esphome.Ebus.{
  Ebus, Effect, normal, uart_send_char, uart_send_remaining_request_part, send_request_bytes,
  handle_response, int16_to_u8,
}
use esphome.Ebus.Active.{advance_in, advance_command, is_normal, send_command_rest}
use esphome.Ebus.Process.{
  unescape, real_byte, process_received_char, process_byte, process_unescaped, prepare, finish,
  acknowledge,
}
use esphome.Ebus.Phases.{
  Phase, Phase-state, ready, closed_state, closing, ready-at_syn, ready-at_byte,
}
use esphome.Ebus.Switched.{with_telegram}

-- The effects hold the parts one behind the other, with others around them.
abbrev pub InOrder : List (List Effect) → List Effect → Type 0
InOrder [] effects = Unit
InOrder (part ∷ parts) effects =
    (before : List Effect) × (behind : List Effect) × (effects ≡ before ++ (part ++ behind))
    × InOrder parts behind

-- The same in what a step does, if it returns.
abbrev pub SentBy : List Effect → Option (Ebus × List Effect) → Type 0
SentBy part none = Unit
SentBy part (some (next, effects)) =
    (before : List Effect) × (behind : List Effect) × (effects ≡ before ++ (part ++ behind))

-- Parts remain in order behind other effects.
pub InOrder-behind :
    (parts : List (List Effect)) (first effects : List Effect)
    → InOrder parts effects
    → InOrder parts (first ++ effects)
InOrder-behind [] first effects h = tt
InOrder-behind (part ∷ parts) first effects (before, behind, e, later) =
    (first ++ before, behind, ap (◌++◌ first) e ∙ sym (append_assoc first before _), later)

-- A part that a step sends stands before those that are sent later.
pub InOrder-step :
    (part : List Effect) (parts : List (List Effect)) (first effects : List Effect)
    → ((before : List Effect) × (behind : List Effect) × (first ≡ before ++ (part ++ behind)))
    → InOrder parts effects
    → InOrder (part ∷ parts) (first ++ effects)
InOrder-step part parts first effects (before, behind, e) later = (
  before,
  behind ++ effects,
  ap (λ sent. sent ++ effects) e
      ∙ append_assoc before (part ++ behind) effects
      ∙ ap (◌++◌ before) (append_assoc part behind effects),
  InOrder-behind parts behind effects later,
)

finish-SentBy :
    (part : List Effect) (received : ℕ) (before : List Effect) (ready : Ebus) (r : Option Telegram)
    → ((t : Telegram)
        → (advance_command received (record ready { receiving_telegram = t })).1 ≡ part)
    → SentBy part
        (r >>= λ t. some (finish received before (record ready { receiving_telegram = t })))
unfolding finish
finish-SentBy part received before ready none h = tt
finish-SentBy part received before ready (some t) h =
    let stepped = record ready { receiving_telegram = t } in
    let next = (advance_command received stepped).0 in
    let answers : List Effect = acknowledge next ++ handle_response next next.receiving_telegram in
    (before, answers, ap (λ sent. before ++ (sent ++ answers)) (h t))

same_request_bytes :
    (s : TelegramState) (c : SendCommand) (left i : ℕ)
    → send_request_bytes (command_to_state s c) left i ≡ send_request_bytes c left i
unfolding send_request_bytes command_to_state get_request_byte get_nn
same_request_bytes s c zero i = refl
same_request_bytes s c (suc left) i =
    ap (◌∷◌ (uart_send_char (int16_to_u8 (get_request_byte c.base i))))
      (same_request_bytes s c left (i + 1))

-- What is behind the address does not depend on the command's state.
same_rest :
    (s : TelegramState) (c : SendCommand)
    → uart_send_remaining_request_part (command_to_state s c) ≡ uart_send_remaining_request_part c
unfolding uart_send_remaining_request_part command_to_state get_zz get_pb get_sb get_nn get_crc
same_rest s c =
    ap
      (λ sent.
        (uart_send_char (get_zz c.base)
          ∷ uart_send_char (get_pb c.base)
          ∷ uart_send_char (get_sb c.base)
          ∷ uart_send_char (get_nn c.base)
          ∷ sent)
        ++ uart_send_char (get_crc c) ∷ [])
      (same_request_bytes s c (get_nn c.base) 0)

-- A byte outside an escape that advances a command in a phase.
phase-SentBy :
    (part : List Effect) (dequeue : Option (Option SendCommand)) {s : TelegramState}
    {c : SendCommand} {lock max_lock : ℕ} (e : Ebus) (received : ℕ)
    → unescape e.in_esc received ≡ real_byte received
    → Phase s c lock max_lock (ready dequeue e received)
    → ((r : Ebus)
        → Phase s c lock max_lock r
        → r.state ≡ (ready dequeue e received).state
        → (advance_in s received r).1 ≡ part)
    → SentBy part (process_received_char dequeue received e)
unfolding process_received_char process_unescaped process_byte advance_command
phase-SentBy part dequeue e received u phase sends = rw (u) (
    finish-SentBy part received (prepare dequeue received (closed_state e)).1
      (ready dequeue e received) _
      (λ t.
        let stepped = record (ready dequeue e received) { receiving_telegram = t } in
        ap (λ s. (advance_in s received stepped).1) (Phase-state (with_telegram t phase))
        ∙ sends stepped (with_telegram t phase) refl))

module _ (dequeue : Option (Option SendCommand)) {c : SendCommand} {lock max_lock : ℕ}
    {e : Ebus} where
  -- When the lock is down, a SYN makes the driver send the command's address.
  pub syn-SentBy :
      Phase wait_for_send c lock max_lock e
      → lock ≤ 1
      → e.char_count_since_last_syn ≢ 1
      → SentBy (uart_send_char (get_qq c.base) ∷ []) (process_received_char dequeue syn e)
  syn-SentBy h low quiet =
      let tracked =
        ready-at_syn dequeue e (closing h) (unfold is_finished command_to_state in refl) quiet in
      phase-SentBy _ dequeue e syn (unfold unescape in ground (arith, h.closed)) tracked.0
        (λ r p state. begun r p (state ∙ tracked.1))
    where
      begun :
          (r : Ebus)
          → Phase wait_for_send c (lock - 1) max_lock r
          → r.state ≡ normal
          → (advance_in wait_for_send syn r).1 ≡ uart_send_char (get_qq c.base) ∷ []
      begun r p quiet =
          let same_qq : get_qq r.active_command.base ≡ get_qq c.base =
            unfold command_to_state get_qq in ap (λ c. get_qq c.base) p.command in
          unfold advance_in is_normal in ground (arith, p.locked, quiet, same_qq, low)

  -- The own address makes it send all that is behind the address.
  pub address-SentBy :
      Phase wait_for_arbitration c lock max_lock e
      → get_qq c.base ≢ syn
      → get_qq c.base ≢ esc
      → SentBy
          (uart_send_remaining_request_part c)
          (process_received_char dequeue (get_qq c.base) e)
  address-SentBy h other plain =
      phase-SentBy _ dequeue e (get_qq c.base) (unfold unescape in ground (arith, h.closed))
        (ready-at_byte dequeue e (closing h) (unfold is_finished command_to_state in refl)
          (get_qq c.base) other)
        (λ r p state. won r p)
    where
      won :
          (r : Ebus)
          → Phase wait_for_arbitration c lock max_lock r
          → (advance_in wait_for_arbitration (get_qq c.base) r).1
            ≡ uart_send_remaining_request_part c
      won r p =
          let same_qq : get_qq r.active_command.base ≡ get_qq c.base =
            unfold command_to_state get_qq in ap (λ c. get_qq c.base) p.command in
          let sent : (advance_in wait_for_arbitration (get_qq c.base) r).1
              ≡ uart_send_remaining_request_part r.active_command =
            unfold advance_in send_command_rest in ground (arith, same_qq) in
          sent ∙ ap uart_send_remaining_request_part p.command ∙ same_rest wait_for_arbitration c
