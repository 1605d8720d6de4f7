-- ===== src/Ebus/Completion.antt =====
-- A command that waits is sent and completes: runs of `process_received_char` of
-- esphome/components/ebus/ebus.cpp.
use esphome.Prelude.{
  ℕ, zero, suc, ◌-◌, ◌<◌, ◌≡◌, ◌≢◌, refl, ap, subst, ◌∙◌, Bool, true, false, List, [], ◌∷◌, ◌++◌,
  replicate, Option, arith, All,
}
use esphome.Telegram.{
  wait_for_send, wait_for_arbitration, wait_for_command_ack, end_completed, syn, esc, ack, get_qq,
  is_ack_expected,
}
use esphome.Telegram.Command.{SendCommand, command_to_state}
use esphome.Ebus.{Ebus, Effect, uart_send_char, uart_send_remaining_request_part}
use esphome.Ebus.Safety.{IsReceiving}
use esphome.Ebus.Phases.{Phase, closing}
use esphome.Ebus.Steps.{
  opens, Awaits, syn-Waits, syn-Starts, address-Wins, byte-Awaits, ack-Completes,
}
use esphome.Ebus.Sends.{syn-SentBy, address-SentBy}
use esphome.Ebus.Reaching.{run, Reaches, run-step, Sends, sending_step, waiting_step}

-- Whether an escape is open behind some bytes.
abbrev pub open_after : Bool → List ℕ → Bool
open_after open' [] = open'
open_after open' (byte ∷ rest) = open_after (opens open' byte) rest

-- A byte that is neither ACK nor SYN.
abbrev pub IsEcho : ℕ → Type 0
IsEcho byte = (byte < 256) × (byte ≢ ack) × (byte ≢ syn)

module _ (dequeue : Option (Option SendCommand)) (c : SendCommand) (max_lock : ℕ) where
  -- The command is done, and the lock is taken.
  abbrev Done : Ebus → Type 0
  Done e = Phase end_completed c max_lock max_lock e

  acknowledged :
      {lock : ℕ} (echo : List ℕ) (open' : Bool) (e : Ebus)
      → IsReceiving e.receiving_telegram
      → Awaits c lock max_lock open' e
      → All IsEcho echo
      → open_after open' echo ≡ false
      → Reaches Done (run dequeue (echo ++ ack ∷ []) e)
  acknowledged {lock} [] open' e v h all closed =
      run-step Done Done dequeue ack [] e (omega arith) v
        (ack-Completes dequeue (record {
          command = h.0.command;
          locked = h.0.locked;
          max_locked = h.0.max_locked;
          closed = h.1 ∙ closed;
        }))
        (λ next v' done. record {
          final = next;
          effects = [];
          returns = unfold run in refl;
          holds = done;
        })
  acknowledged {lock} (byte ∷ rest) open' e v h all closed =
      run-step (Awaits c lock max_lock (opens open' byte)) Done dequeue byte (rest ++ ack ∷ []) e
        all.0.0 v (byte-Awaits dequeue h byte all.0.1 all.0.2)
        (λ next v' h'. acknowledged rest (opens open' byte) next v' h' all.1 closed)

  -- The command from its address on, and the rest of it.
  abbrev address_sent : List Effect
  address_sent = uart_send_char (get_qq c.base) ∷ []

  abbrev rest_sent : List Effect
  rest_sent = uart_send_remaining_request_part c

  module _ (plain : (get_qq c.base < 256) × (get_qq c.base ≢ syn) × (get_qq c.base ≢ esc))
      (expected : is_ack_expected c.base ≡ true) (echo : List ℕ) (all : All IsEcho echo)
      (closed : open_after false echo ≡ false) where
    -- The bytes from the own address on.
    abbrev answered : List ℕ
    answered = get_qq c.base ∷ echo ++ ack ∷ []

    addressed :
        (e : Ebus)
        → IsReceiving e.receiving_telegram
        → Phase wait_for_arbitration c 0 max_lock e
        → Sends (rest_sent ∷ []) Done (run dequeue answered e)
    addressed e v h =
        sending_step Done dequeue rest_sent [] (Phase wait_for_command_ack c 0 max_lock)
          (get_qq c.base) (echo ++ ack ∷ []) e plain.0 v
          (address-Wins dequeue h plain.1 plain.2 expected)
          (address-SentBy dequeue h plain.1 plain.2)
          (λ next v' h'. record {
            reached = acknowledged echo false next v' (closing h', h'.closed) all closed;
            in_order = tt;
          })

    counted :
        (k lock : ℕ) (e : Ebus)
        → k ≡ lock - 1
        → IsReceiving e.receiving_telegram
        → Phase wait_for_send c lock max_lock e
        → e.char_count_since_last_syn ≢ 1
        → Sends
            (address_sent ∷ rest_sent ∷ [])
            Done
            (run dequeue (syn ∷ replicate k syn ++ answered) e)
    counted zero lock e same v h quiet =
        sending_step Done dequeue address_sent (rest_sent ∷ [])
          (Phase wait_for_arbitration c 0 max_lock) syn answered e (omega arith) v
          (syn-Starts dequeue h (omega (arith, same)) quiet)
          (syn-SentBy dequeue h (omega (arith, same)) quiet) addressed
    counted (suc k) lock e same v h quiet =
        let two : lock ≡ suc (suc k) = omega (arith, same) in
        waiting_step Done dequeue (address_sent ∷ rest_sent ∷ [])
          (λ e'. Phase wait_for_send c (suc k) max_lock e' × (e'.char_count_since_last_syn ≢ 1)) syn
          (syn ∷ replicate k syn ++ answered) e (omega arith) v
          (syn-Waits dequeue (subst (λ n. Phase wait_for_send c n max_lock e) two h) quiet)
          (λ next v' p. counted k (suc k) next (omega arith) v' p.0 p.1)

-- The bytes of an idle bus until the lock has run down, the address, the echo and an ACK.
abbrev pub exchange : ℕ → ℕ → List ℕ → List ℕ
exchange lock qq echo = syn ∷ (replicate (lock - 1) syn ++ (qq ∷ (echo ++ ack ∷ [])))

-- A command that waits is sent and completes, and the lock is taken, if the bus is idle until the
-- lock has run down, the own address comes back unharmed, and so does an echo that holds neither an ACK
-- nor a SYN and no open escape, and then an ACK arrives. Sent means that what the driver sends holds
-- the command's address, and behind it the remaining part of the request in one piece; answers to
-- other telegrams may stand around these. The command is no broadcast, its address is a byte and
-- neither SYN nor ESC, no escape is open, the telegram that is received is proper, and the last SYN
-- is not just one byte away. All these bytes are processed, whatever `dequeue_command_` would answer.
pub run-completes :
    (dequeue : Option (Option SendCommand)) (e : Ebus) (echo : List ℕ)
    → e.active_command.state ≡ wait_for_send
    → is_ack_expected e.active_command.base ≡ true
    → (get_qq e.active_command.base < 256)
      × (get_qq e.active_command.base ≢ syn)
      × (get_qq e.active_command.base ≢ esc)
    → e.in_esc ≡ false
    → IsReceiving e.receiving_telegram
    → e.char_count_since_last_syn ≢ 1
    → All IsEcho echo
    → open_after false echo ≡ false
    → Sends
        ((uart_send_char (get_qq e.active_command.base) ∷ [])
          ∷ uart_send_remaining_request_part e.active_command
          ∷ [])
        (λ final.
          (final.active_command ≡ command_to_state end_completed e.active_command)
          × (final.lock_counter ≡ e.max_lock_counter))
        (run dequeue (exchange e.lock_counter (get_qq e.active_command.base) echo) e)
unfolding command_to_state
run-completes dequeue e echo state expected plain open' v quiet all closed =
    let done =
      counted dequeue e.active_command e.max_lock_counter plain expected echo all closed
        (e.lock_counter - 1) e.lock_counter e refl v start quiet in
    record {
      reached = record {
        final = done.reached.final;
        effects = done.reached.effects;
        returns = done.reached.returns;
        holds = (done.reached.holds.command, done.reached.holds.locked);
      };
      in_order = done.in_order;
    }
  where
    start : Phase wait_for_send e.active_command e.lock_counter e.max_lock_counter e
    start = record {
      command = ap (λ s. command_to_state s e.active_command) state;
      locked = refl;
      max_locked = refl;
      closed = open';
    }
