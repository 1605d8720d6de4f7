-- ===== src/Ebus/Arbitration.antt =====
-- The second `switch` of `process_received_char` in esphome/components/ebus/ebus.cpp: when a part of
-- the command goes out, and how the command moves.
use esphome.Prelude.{ℕ, ◌≡◌, ◌≢◌, ◌⊎◌, refl, arith, Bool, true, false, List, [], ◌∷◌}
use esphome.Elf.{get_priority_class}
use esphome.Telegram.{
  TelegramState, wait_for_send, wait_for_arbitration, wait_for_arbitration_2nd,
  wait_for_command_ack, syn, ack, get_qq, is_ack_expected,
}
use esphome.Telegram.Command.{SendCommand}
use esphome.Ebus.{
  Ebus, Effect, normal, arbitration, uart_send_char, uart_send_remaining_request_part,
}
use esphome.Ebus.Active.{
  advance_in, advance_command, retry_command, send_command_rest, set_command_state,
  complete_command, is_normal,
}

-- Why a byte makes the driver send a part of its command.
pub data MaySend (received : ℕ) (e : Ebus) : List Effect → Type 0 where
  silent : MaySend received e []
  begin :
      e.active_command.state ≡ wait_for_send
      → received ≡ syn
      → e.state ≡ normal
      → e.lock_counter ≡ 0
      → MaySend received e (uart_send_char (get_qq e.active_command.base) ∷ [])
  again :
      e.active_command.state ≡ wait_for_arbitration_2nd
      → received ≡ syn
      → MaySend received e (uart_send_char (get_qq e.active_command.base) ∷ [])
  rest :
      (e.active_command.state ≡ wait_for_arbitration)
        ⊎ (e.active_command.state ≡ wait_for_arbitration_2nd)
      → received ≡ get_qq e.active_command.base
      → MaySend received e (uart_send_remaining_request_part e.active_command)

advance_in-MaySend :
    (s : TelegramState) (received : ℕ) (e : Ebus)
    → e.active_command.state ≡ s
    → MaySend received e (advance_in s received e).1
unfolding advance_in
advance_in-MaySend wait_for_send received e h = grind (arith, silent, begin)
advance_in-MaySend wait_for_arbitration received e h = grind (arith, silent, rest)
advance_in-MaySend wait_for_arbitration_2nd received e h = grind (arith, silent, again, rest)
advance_in-MaySend wait_for_command_ack received e h = grind (arith, silent)
advance_in-MaySend _ received e h = silent

-- A byte makes the driver send its address, at a SYN, or the rest of its request, at its own
-- address that won the arbitration, or nothing. The first attempt of a command is made only in the
-- normal state of the bus with the lock at zero; the second only in the second round.
pub advance_command-MaySend :
    (received : ℕ) (e : Ebus) → MaySend received e (advance_command received e).1
unfolding advance_command
advance_command-MaySend received e = advance_in-MaySend e.active_command.state received e refl

-- A byte on which the attempt to send is lost: another address won the arbitration, or the
-- acknowledgement is missing at the next SYN.
pub data Lost (received : ℕ) (c : SendCommand) : Type 0 where
  outranked :
      c.state ≡ wait_for_arbitration
      → received ≢ get_qq c.base
      → get_priority_class received ≢ get_priority_class (get_qq c.base)
      → Lost received c
  beaten :
      c.state ≡ wait_for_arbitration_2nd
      → received ≢ syn
      → received ≢ get_qq c.base
      → Lost received c
  unacknowledged : c.state ≡ wait_for_command_ack → received ≡ syn → Lost received c

-- The command has won, or its last byte is acknowledged.
pub data Done (received : ℕ) (c : SendCommand) : Type 0 where
  won :
      (c.state ≡ wait_for_arbitration) ⊎ (c.state ≡ wait_for_arbitration_2nd)
      → received ≡ get_qq c.base
      → is_ack_expected c.base ≡ false
      → Done received c
  acknowledged : c.state ≡ wait_for_command_ack → received ≡ ack → Done received c

-- Whether the state is one of the four of a command on its way.
abbrev pub is_pending : TelegramState → Bool
is_pending wait_for_send = true
is_pending wait_for_arbitration = true
is_pending wait_for_arbitration_2nd = true
is_pending wait_for_command_ack = true
is_pending _ = false

-- A byte on which nothing happens to the command.
pub data Unmoved (received : ℕ) (e : Ebus) : Type 0 where
  unready :
      e.active_command.state ≡ wait_for_send
      → (received ≢ syn) ⊎ ((e.state ≡ arbitration) ⊎ (e.lock_counter ≢ 0))
      → Unmoved received e
  retried : e.active_command.state ≡ wait_for_arbitration_2nd → received ≡ syn → Unmoved received e
  unanswered :
      e.active_command.state ≡ wait_for_command_ack
      → received ≢ ack
      → received ≢ syn
      → Unmoved received e
  inactive : is_pending e.active_command.state ≡ false → Unmoved received e

-- How a byte may change the command and the lock.
pub data CommandMoves (received : ℕ) (e : Ebus) : Ebus → Type 0 where
  idle : Unmoved received e → CommandMoves received e e
  started :
      e.active_command.state ≡ wait_for_send
      → received ≡ syn
      → e.state ≡ normal
      → e.lock_counter ≡ 0
      → CommandMoves received e (set_command_state wait_for_arbitration e)
  tied :
      e.active_command.state ≡ wait_for_arbitration
      → received ≢ get_qq e.active_command.base
      → get_priority_class received ≡ get_priority_class (get_qq e.active_command.base)
      → CommandMoves received e (set_command_state wait_for_arbitration_2nd e)
  sent :
      (e.active_command.state ≡ wait_for_arbitration)
        ⊎ (e.active_command.state ≡ wait_for_arbitration_2nd)
      → received ≡ get_qq e.active_command.base
      → is_ack_expected e.active_command.base ≡ true
      → CommandMoves received e (set_command_state wait_for_command_ack e)
  done : Done received e.active_command → CommandMoves received e (complete_command e)
  lost : Lost received e.active_command → CommandMoves received e (retry_command e)

advance_in-CommandMoves :
    (s : TelegramState) (received : ℕ) (e : Ebus)
    → e.active_command.state ≡ s
    → CommandMoves received e (advance_in s received e).0
unfolding advance_in send_command_rest is_normal
advance_in-CommandMoves wait_for_send received e h = grind (arith, idle, unready, started)
advance_in-CommandMoves wait_for_arbitration received e h =
    grind (arith, sent, tied, done, lost, won, outranked)
advance_in-CommandMoves wait_for_arbitration_2nd received e h =
    grind (arith, idle, retried, sent, done, lost, won, beaten)
advance_in-CommandMoves wait_for_command_ack received e h =
    grind (arith, idle, unanswered, done, lost, acknowledged, unacknowledged)
advance_in-CommandMoves _ received e h = idle (inactive (rw h refl))

pub advance_command-CommandMoves :
    (received : ℕ) (e : Ebus) → CommandMoves received e (advance_command received e).0
unfolding advance_command
advance_command-CommandMoves received e =
    advance_in-CommandMoves e.active_command.state received e refl
