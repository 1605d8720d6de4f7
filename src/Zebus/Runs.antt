-- ===== src/Zebus/Runs.antt =====
-- Runs of the two drivers on bytes that hold no ESC.
use esphome.Prelude.{
  ℕ, ◌<◌, ◌≡◌, ◌≢◌, refl, sym, ap, ◌∙◌, subst, Bool, false, List, [], ◌∷◌, ◌++◌, Option, some, none,
  ◌>>=◌, arith, All,
}
use esphome.Telegram.{esc}
use esphome.Telegram.Received.{Telegram}
use esphome.Telegram.Command.{SendCommand}
use esphome.Ebus.{Ebus, Effect}
use esphome.Ebus.Receive.{receive_char}
use esphome.Ebus.Active.{advance_command}
use esphome.Ebus.Process.{
  process_received_char, process_byte, process_unescaped, Unescaped, unescape, real_byte,
  escape_begins, invalid_sequence, prepare, finish,
}
use esphome.Ebus.Receiver.{observe, receive_step, receive_unescaped, process_received_char_observed}
use esphome.Ebus.Safety.{IsReceiving}
use esphome.Ebus.Invariant.{Processes, process_received_char-Processes}
use esphome.Zebus.Process.{process_received_char as process_received_char'}
use esphome.Zebus.SameSteps.{earlier, RepliesFit, earlier_result}
use esphome.Zebus.Agreement.{process_received_char_same, advance_in_handlers, prepare_handlers}

-- A byte, with what `dequeue_command_` would answer then.
abbrev pub Input : Type 0
Input = Option (Option SendCommand) × ℕ

-- What a driver does with one input after the other: all its effects, in order.
unfoldable pub run_with {ℓ} :
    {E : Type ℓ}
    → (Option (Option SendCommand) → ℕ → E → Option (E × List Effect))
    → List Input
    → E
    → Option (E × List Effect)
run_with step [] e = some (e, [])
run_with step (input ∷ rest) e = do
  (next, effects) ← step input.0 input.1 e
  (last, more) ← run_with step rest next
  some (last, effects ++ more)

-- What the agreement needs of the state, and what a byte that is not ESC keeps.
pub record Agrees (e : Ebus) : Type 0 where
  pub closed : e.in_esc ≡ false
  pub valid : IsReceiving e.receiving_telegram
  pub fits : (t : Telegram) → RepliesFit e.send_response_handlers t

receive_step-closed :
    (received : ℕ) (t : Telegram) (in_esc : Bool) (next : Bool × Telegram)
    → received ≢ esc
    → in_esc ≡ false
    → receive_step in_esc t received ≡ some next
    → next.0 ≡ false
unfolding receive_step receive_unescaped unescape
receive_step-closed received t in_esc next other closed r = ground arith

HasHandlers : List (Telegram → List ℕ) → Option (Ebus × List Effect) → Type 0
HasHandlers handlers none = Unit
HasHandlers handlers (some (next, effects)) = next.send_response_handlers ≡ handlers

finish-HasHandlers :
    (received : ℕ) (before : List Effect) (ready : Ebus) (r : Option Telegram)
    → HasHandlers ready.send_response_handlers
        (r >>= λ t. some (finish received before (record ready { receiving_telegram = t })))
unfolding HasHandlers finish advance_command
finish-HasHandlers received before ready none = tt
finish-HasHandlers received before ready (some t) =
    advance_in_handlers ready.active_command.state received
      (record ready { receiving_telegram = t })

process_unescaped-HasHandlers :
    (u : Unescaped) (dequeue : Option (Option SendCommand)) (received : ℕ) (e : Ebus)
    → HasHandlers e.send_response_handlers (process_unescaped u dequeue received e)
unfolding process_unescaped process_byte HasHandlers
process_unescaped-HasHandlers escape_begins dequeue received e = refl
process_unescaped-HasHandlers invalid_sequence dequeue received e = refl
process_unescaped-HasHandlers (real_byte real) dequeue received e =
    let e' : Ebus = record e { in_esc = false } in
    let p = prepare dequeue received e' in
    subst
      (λ handlers. HasHandlers handlers (
        receive_char received real p.0.receiving_telegram >>= λ t.
        some (finish received p.1 (record p.0 { receiving_telegram = t }))))
      (prepare_handlers dequeue received e')
      (finish-HasHandlers received p.1 p.0 (receive_char received real p.0.receiving_telegram))

-- One step keeps the two drivers in agreement.
next-Agrees :
    (dequeue : Option (Option SendCommand)) (received : ℕ) (e : Ebus)
    → received ≢ esc
    → Agrees e
    → (p : Processes (process_received_char dequeue received e)) → Agrees p.next
unfolding process_received_char HasHandlers
next-Agrees dequeue received e other a p = record {
  closed =
      receive_step-closed received e.receiving_telegram e.in_esc
        (p.next.in_esc, p.next.receiving_telegram) other a.closed
        (sym (process_received_char_observed dequeue received e) ∙ ap observe p.returns);
  valid = p.valid;
  fits = λ t.
      subst (λ handlers. RepliesFit handlers t)
        (sym (
          subst (HasHandlers e.send_response_handlers) p.returns
            (process_unescaped-HasHandlers (unescape e.in_esc received) dequeue received e)))
        (a.fits t);
}

earlier-append :
    (effects : List Effect) (m : Option (Ebus × List Effect))
    → (m >>= (λ r. some (earlier_result r)) >>= λ z. some (z.0, effects ++ z.1))
      ≡ (m >>= (λ z. some (z.0, effects ++ z.1)) >>= λ r. some (earlier_result r))
earlier-append effects none = refl
earlier-append effects (some r) = refl

-- A byte of the stream that is not an ESC.
abbrev pub IsPlain : Input → Type 0
IsPlain input = (input.1 < 256) × (input.1 ≢ esc)

-- On a stream of bytes without ESC, the two drivers send the same, queue the same telegrams and dequeue
-- at the same bytes, and end in the same state, whatever commands are dequeued. They start in the same
-- state, with no escape open and a proper telegram, and their handlers are the same, with replies that
-- fit the buffer.
pub runs_same :
    (inputs : List Input) (e : Ebus)
    → Agrees e
    → All IsPlain inputs
    → run_with process_received_char' inputs (earlier e)
      ≡ (run_with process_received_char inputs e >>= λ r. some (earlier_result r))
unfolding run_with
runs_same [] e a plain = refl
runs_same ((dequeue, received) ∷ rest) e a plain =
    rw
      (
        process_received_char_same dequeue received e plain.0.1 a.closed a.valid.request.1 a.fits,
        p.returns,
        runs_same rest p.next (next-Agrees dequeue received e plain.0.1 a p) plain.1,
      )
      (earlier-append p.effects (run_with process_received_char rest p.next))
  where
    p : Processes (process_received_char dequeue received e)
    p = process_received_char-Processes dequeue received e plain.0.0 a.valid
