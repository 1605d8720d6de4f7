-- ===== src/Ebus/Settled.antt =====
-- `process_received_char` of esphome/components/ebus/ebus.cpp while the own command has been sent or
-- is done, and no other is queued: what is received, and what is answered.
use mathlib.Core.Option.{some-injective}
use esphome.Prelude.{
  ℕ, ◌≡◌, ◌≢◌, ◌⊎◌, inl, inr, refl, ap, sym, subst, ◌∙◌, Bool, true, false, ◌&&◌, ◌==◌,
  if◌then◌else◌, List, [], ◌++◌, some, arith, Option-cases,
}
use esphome.Telegram.{
  TelegramState, wait_for_request_ack, wait_for_response_ack, wait_for_command_ack, end_completed,
  same_state, syn, ack,
}
use esphome.Telegram.Received.{Telegram, new_telegram}
use esphome.Telegram.Command.{SendCommand, command_to_state}
use esphome.Ebus.{Ebus, Effect, handle_response}
use esphome.Ebus.Receive.{receive_char}
use esphome.Ebus.Active.{advance_in, advance_command, complete_command, set_command_state}
use esphome.Ebus.Process.{
  unescape, Unescaped, real_byte, escape_begins, invalid_sequence, process_received_char,
  process_unescaped, track_syn, acknowledge,
}
use esphome.Ebus.Receiver.{receive_step, receive_unescaped, fresh_telegram}
use esphome.Ebus.Phases.{closed_state}
use esphome.Ebus.Sending.{on_wire}
use esphome.Ebus.Says.{nothing_queued, real_byte-Says}

-- The address, the handlers and the callback for telegrams stay.
abbrev pub SameDriver : Ebus → Ebus → Type 0
SameDriver e e' =
    (e'.primary_address ≡ e.primary_address)
    × (e'.send_response_handlers ≡ e.send_response_handlers)
    × (e'.queues_received_telegrams ≡ e.queues_received_telegrams)

-- The command behind a byte: an ACK completes one that waits for that.
abbrev pub after_byte : ℕ → SendCommand → SendCommand
after_byte byte c =
    if same_state c.state wait_for_command_ack && byte == ack
    then command_to_state end_completed c
    else c

-- The command has gone out, or is done; then a SYN does no harm either.
abbrev pub IsSettled : ℕ → SendCommand → Type 0
IsSettled byte c = ((c.state ≡ wait_for_command_ack) × (byte ≢ syn)) ⊎ (c.state ≡ end_completed)

-- The second `switch` sends nothing, and does nothing but complete the command.
record Settles (byte : ℕ) (e : Ebus) (result : Ebus × List Effect) : Type 0 where
  command : result.0.active_command ≡ after_byte byte e.active_command
  same_driver : SameDriver e result.0
  same_esc : result.0.in_esc ≡ e.in_esc
  same_telegram : result.0.receiving_telegram ≡ e.receiving_telegram
  silent : on_wire result.1 ≡ []

waiting-Settles :
    (byte : ℕ) (e : Ebus)
    → e.active_command.state ≡ wait_for_command_ack
    → byte ≢ syn
    → Settles byte e (advance_in wait_for_command_ack byte e)
unfolding advance_in complete_command set_command_state command_to_state
waiting-Settles byte e s n = record {
  command = ground arith;
  same_driver = ground arith;
  same_esc = ground arith;
  same_telegram = ground arith;
  silent = ground arith;
}

completed-Settles :
    (byte : ℕ) (e : Ebus)
    → e.active_command.state ≡ end_completed
    → Settles byte e (advance_in end_completed byte e)
unfolding advance_in
completed-Settles byte e s = record {
  command = ground arith;
  same_driver = (refl, refl, refl);
  same_esc = refl;
  same_telegram = refl;
  silent = refl;
}

advance_command-Settles :
    (byte : ℕ) (e : Ebus)
    → IsSettled byte e.active_command
    → Settles byte e (advance_command byte e)
unfolding advance_command
advance_command-Settles byte e (inl (s, n)) =
    subst (λ s'. Settles byte e (advance_in s' byte e)) (sym s) (waiting-Settles byte e s n)
advance_command-Settles byte e (inr s) =
    subst (λ s'. Settles byte e (advance_in s' byte e)) (sym s) (completed-Settles byte e s)

-- What goes out when the byte leaves the telegram `t`.
unfoldable pub answer_to : Ebus → Telegram → List ℕ
unfolding acknowledge handle_response
answer_to e t =
    on_wire (acknowledge (record e { receiving_telegram = t })) ++ on_wire (handle_response e t)

-- A byte, and what reception makes of it.
pub record Hears (byte : ℕ) (e : Ebus) (r : Bool × Telegram) : Type 0 where
  pub next : Ebus
  pub effects : List Effect
  pub returns : process_received_char nothing_queued byte e ≡ some (next, effects)
  pub command : next.active_command ≡ after_byte byte e.active_command
  pub same_driver : SameDriver e next
  pub received : (next.in_esc ≡ r.0) × (next.receiving_telegram ≡ r.1)
  pub sent : on_wire effects ≡ (if r.0 then [] else answer_to e r.1)

pub track_syn-same :
    (received : ℕ) (e : Ebus)
    → SameDriver e (track_syn received e)
      × ((track_syn received e).active_command ≡ e.active_command)
      × ((track_syn received e).in_esc ≡ e.in_esc)
unfolding track_syn
track_syn-same received e = ground arith

pub answer_to-same : (e e' : Ebus) (t : Telegram) → SameDriver e e' → answer_to e' t ≡ answer_to e t
unfolding answer_to acknowledge handle_response
answer_to-same e e' t same = rw (same.0, same.1) refl

pub answer_to-next :
    (e next : Ebus) (t : Telegram)
    → SameDriver e next
    → next.receiving_telegram ≡ t
    → on_wire (acknowledge next) ++ on_wire (handle_response next next.receiving_telegram)
      ≡ answer_to e t
unfolding answer_to acknowledge handle_response
answer_to-next e next t same heard = rw (heard, same.0, same.1) refl

real_byte-Hears :
    (byte real : ℕ) (e : Ebus) (t : Telegram)
    → IsSettled byte e.active_command
    → unescape e.in_esc byte ≡ real_byte real
    → receive_char byte real (fresh_telegram e.receiving_telegram) ≡ some t
    → Hears byte e (false, t)
real_byte-Hears byte real e t settled u r =
    let says = real_byte-Says byte real e t u r in
    let tracked = track_syn-same byte (closed_state e) in
    let ready = record (track_syn byte (closed_state e)) { receiving_telegram = t } in
    let s = advance_command-Settles byte ready (subst (IsSettled byte) (sym tracked.1) settled) in
    let same : SameDriver e says.next = (
      ap (λ e. e.primary_address) says.next_is ∙ s.same_driver.0 ∙ tracked.0.0,
      ap (λ e. e.send_response_handlers) says.next_is ∙ s.same_driver.1 ∙ tracked.0.1,
      ap (λ e. e.queues_received_telegrams) says.next_is ∙ s.same_driver.2 ∙ tracked.0.2,
    ) in
    let heard = ap (λ e. e.receiving_telegram) says.next_is ∙ s.same_telegram in
    record {
      next = says.next;
      effects = says.effects;
      returns = says.returns;
      command =
          ap (λ e. e.active_command) says.next_is ∙ s.command ∙ ap (after_byte byte) tracked.1;
      same_driver = same;
      received = (ap (λ e. e.in_esc) says.next_is ∙ s.same_esc ∙ tracked.2, heard);
      sent =
          says.sent
          ∙ ap
              (λ bytes.
                bytes
                ++ (on_wire (acknowledge says.next)
                    ++ on_wire (handle_response says.next says.next.receiving_telegram)))
              s.silent
          ∙ answer_to-next e says.next t same heard;
    }

-- A byte that says nothing yet, or is wrong, is no ACK.
unescape-no_ack :
    (in_esc : Bool) (byte : ℕ)
    → (unescape in_esc byte ≡ escape_begins) ⊎ (unescape in_esc byte ≡ invalid_sequence)
    → (byte == ack) ≡ false
unfolding unescape
unescape-no_ack in_esc byte u = ground arith

after_byte-no_ack : (byte : ℕ) (c : SendCommand) → (byte == ack) ≡ false → c ≡ after_byte byte c
after_byte-no_ack byte c n = ground arith

receive_unescaped-Hears :
    (u : Unescaped) (byte : ℕ) (e : Ebus) (r : Bool × Telegram)
    → unescape e.in_esc byte ≡ u
    → IsSettled byte e.active_command
    → receive_unescaped u e.receiving_telegram byte ≡ some r
    → Hears byte e r
unfolding receive_unescaped process_received_char process_unescaped
receive_unescaped-Hears escape_begins byte e r u settled h =
    subst (Hears byte e) (some-injective _ _ h) (record {
      next = record e { in_esc = true };
      effects = [];
      returns = rw (u) refl;
      command = after_byte-no_ack byte e.active_command (unescape-no_ack e.in_esc byte (inl u));
      same_driver = (refl, refl, refl);
      received = (refl, refl);
      sent = refl;
    })
receive_unescaped-Hears invalid_sequence byte e r u settled h =
    subst (Hears byte e) (some-injective _ _ h) (record {
      next = record e { in_esc = false; receiving_telegram = new_telegram };
      effects = [];
      returns = rw (u) refl;
      command = after_byte-no_ack byte e.active_command (unescape-no_ack e.in_esc byte (inr u));
      same_driver = (refl, refl, refl);
      received = (refl, refl);
      sent = unfold answer_to acknowledge handle_response new_telegram in refl;
    })
receive_unescaped-Hears (real_byte real) byte e r u settled h =
    elim (Option-cases (receive_char byte real (fresh_telegram e.receiving_telegram))) [
      | inl bad ↦ absurd (ground (arith, bad, h))
      | inr (t, ok) ↦
          subst (Hears byte e) (some-injective _ _ (rw (ok) at h))
            (real_byte-Hears byte real e t settled u ok)
    ]

-- With a settled command, reception does not depend on what is sent.
pub process_received_char-Hears :
    (byte : ℕ) (e : Ebus) (r : Bool × Telegram)
    → IsSettled byte e.active_command
    → receive_step e.in_esc e.receiving_telegram byte ≡ some r
    → Hears byte e r
unfolding receive_step
process_received_char-Hears byte e r settled h =
    receive_unescaped-Hears (unescape e.in_esc byte) byte e r refl settled h

other_request :
    (s : TelegramState) → s ≢ wait_for_request_ack → same_state s wait_for_request_ack ≡ false
other_request wait_for_request_ack n = absurd (n refl)
other_request _ n = refl

other_response :
    (s : TelegramState) → s ≢ wait_for_response_ack → same_state s wait_for_response_ack ≡ false
other_response wait_for_response_ack n = absurd (n refl)
other_response _ n = refl

-- Nothing is answered where no acknowledgement is awaited.
pub answer_to-none :
    (e : Ebus) (t : Telegram)
    → t.state ≢ wait_for_request_ack
    → t.state ≢ wait_for_response_ack
    → answer_to e t ≡ []
unfolding answer_to acknowledge handle_response
answer_to-none e t a b = rw (other_request t.state a, other_response t.state b) refl
