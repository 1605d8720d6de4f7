-- ===== src/Zebus/Invariant.antt =====
-- `process_received_char` of esphome/components/zebus/include/ebus.cpp on every byte: no access outside
-- a buffer.
use esphome.Prelude.{
  ℕ, zero, suc, ◌∷◌, ◌≤◌, ◌≡◌, refl, sym, subst, Bool, Bool-cases, inl, inr, true, false, not, ◌||◌,
  ◌++◌, ◌==◌, if◌then◌else◌, List, [], length, replicate, Option, some, ◌>>=◌, arith, All,
}
use esphome.Telegram.{wait_for_request_ack, nack, response_buffer_size, same_state}
use esphome.Telegram.Received.{Telegram}
use esphome.Telegram.Command.{SendCommand}
use esphome.Ebus.{Effect}
use esphome.Zebus.Telegram.{get_zz, is_finished, is_request_valid}
use esphome.Zebus.Elf.{to_slave}
use esphome.Zebus.Driver.{
  send_char, Ebus, Handler, ask_handlers, send_answer, send_buffer, handle_response,
}
use esphome.Zebus.Active.{drive_in, drive_command}
use esphome.Zebus.Process.{
  process_received_char, before_switches, after_reception, acknowledge_response,
}
use esphome.Zebus.Safety.{IsStored, Stores, initial_telegram-IsStored}
use esphome.Zebus.Stored.{receive_byte-Stores}
use esphome.Zebus.Kept.{Keeps, drive_in-Keeps, current_telegram, before_switches-Keeps}

-- A handler that is given a whole buffer leaves a whole buffer, and claims no more than that.
abbrev pub WritesWithin : Handler → Type 0
WritesWithin handler =
    (t : Telegram) (buf : List ℕ)
    → length buf ≡ response_buffer_size
    → (length (handler t buf).1 ≡ response_buffer_size) × ((handler t buf).0 ≤ response_buffer_size)

ask_handlers-within :
    (handlers : List Handler) (t : Telegram) (buf : List ℕ)
    → All WritesWithin handlers
    → length buf ≡ response_buffer_size
    → (ask_handlers handlers t buf).0 ≤ length (ask_handlers handlers t buf).1
unfolding ask_handlers
ask_handlers-within [] t buf w size = omega arith
ask_handlers-within (handler ∷ rest) t buf w size = elim (Bool-cases ((handler t buf).0 == 0)) [
  | inl e ↦ rw (e) (ask_handlers-within rest t (handler t buf).1 w.1 (w.0 t buf size).0)
  | inr e ↦ rw (e) (omega (arith, (w.0 t buf size).0, (w.0 t buf size).1))
]

-- A computation that has a result.
abbrev pub Returns : {A : Type 0} → Option A → Type 0
Returns {A} m = (a : A) × (m ≡ some a)

pub bind-Returns :
    {A B : Type 0} (m : Option A) (f : A → B) → Returns m → Returns (m >>= λ a. some (f a))
bind-Returns m f r = (f r.0, rw (r.1))

if-Returns :
    {A : Type 0} (test : Bool) (x y : Option A)
    → Returns x
    → Returns y
    → Returns (if test then x else y)
if-Returns true x y rx ry = rx
if-Returns false x y rx ry = ry

send_buffer-Returns :
    (left : ℕ) (buf : List ℕ) (crc : ℕ) → left ≤ length buf → Returns (send_buffer left buf crc)
unfolding send_buffer
send_buffer-Returns zero buf crc h = (_, refl)
send_buffer-Returns (suc left) [] crc h = absurd (omega arith)
send_buffer-Returns (suc left) (byte ∷ rest) crc h =
    bind-Returns (send_buffer left rest _) _ (send_buffer-Returns left rest _ (omega arith))

send_answer-Returns :
    (answer : ℕ × List ℕ) → answer.0 ≤ length answer.1 → Returns (send_answer answer)
unfolding send_answer
send_answer-Returns (len, buf) h =
    if-Returns (len == 0) (some _) (send_buffer len buf _ >>= λ sent. some _) (_, refl)
      (bind-Returns (send_buffer len buf _) _ (send_buffer-Returns len buf _ h))

handle_response-Returns :
    (e : Ebus) (t : Telegram)
    → All WritesWithin e.send_response_handlers
    → Returns (handle_response e t)
unfolding handle_response
handle_response-Returns e t w =
    if-Returns
      (not (same_state t.state wait_for_request_ack)
        || not (get_zz t.base == to_slave e.master_address))
      (some []) _ (_, refl)
      (if-Returns (not (is_request_valid t)) (some (send_char nack ∷ [])) _ (_, refl)
        (send_answer-Returns asked (
          ask_handlers-within e.send_response_handlers t (replicate response_buffer_size 0) w
            refl)))
  where
    asked : ℕ × List ℕ
    asked = ask_handlers e.send_response_handlers t (replicate response_buffer_size 0)

-- `process_received_char` returns, in a state whose receiving telegram is properly filled.
pub record RunsWithin (result : Option (Ebus × List Effect)) : Type 0 where
  pub next : Ebus
  pub effects : List Effect
  pub returns : result ≡ some (next, effects)
  pub valid : IsStored next.receiving_telegram
  pub handlers : All WritesWithin next.send_response_handlers

after_reception-RunsWithin :
    (received : ℕ) (before : List Effect) (e : Ebus)
    → IsStored e.receiving_telegram
    → All WritesWithin e.send_response_handlers
    → RunsWithin (after_reception received before e)
unfolding after_reception drive_command
after_reception-RunsWithin received before e v w = record {
  next = next;
  effects =
      before
      ++ ((drive_in e.active_command.state received e).1
          ++ (acknowledge_response next ++ answered.0));
  returns = rw (answered.1);
  valid = subst IsStored (sym kept.0) v;
  handlers = within;
}
  where
    next : Ebus
    next = (drive_in e.active_command.state received e).0

    kept : Keeps e next
    kept = drive_in-Keeps e.active_command.state received e

    within : All WritesWithin next.send_response_handlers
    within = subst (All WritesWithin) (sym kept.1) w

    answered : Returns (handle_response next next.receiving_telegram)
    answered = handle_response-Returns next next.receiving_telegram within

current_telegram-IsStored : (t : Telegram) → IsStored t → IsStored (current_telegram t)
unfolding current_telegram
current_telegram-IsStored t v = elim (Bool-cases (is_finished t.base)) [
  | inl e ↦ rw e initial_telegram-IsStored
  | inr e ↦ rw e v
]

bind-RunsWithin :
    (received : ℕ) (before : List Effect) (e : Ebus) (result : Option Telegram)
    → Stores result
    → All WritesWithin e.send_response_handlers
    → RunsWithin
        (result >>= λ t. after_reception received before (record e { receiving_telegram = t }))
bind-RunsWithin received before e result stored w = rw (stored.returns) (
    after_reception-RunsWithin received before (record e { receiving_telegram = stored.next })
      stored.valid w)

-- If the receiving telegram is properly filled, and every handler writes a whole buffer and claims no
-- more than that, then every byte is processed without an access outside a buffer, whatever
-- `dequeue_command_` answers, and all this holds again afterwards.
pub process_received_char-RunsWithin :
    (dequeue : Option (Option SendCommand)) (received : ℕ) (e : Ebus)
    → IsStored e.receiving_telegram
    → All WritesWithin e.send_response_handlers
    → RunsWithin (process_received_char dequeue received e)
unfolding process_received_char
process_received_char-RunsWithin dequeue received e v w =
    bind-RunsWithin received (before_switches dequeue received e).1 ready _
      (receive_byte-Stores received ready.receiving_telegram
        (subst IsStored (sym kept.0) (current_telegram-IsStored e.receiving_telegram v)))
      (subst (All WritesWithin) (sym kept.1) w)
  where
    ready : Ebus
    ready = (before_switches dequeue received e).0

    kept :
        (ready.receiving_telegram ≡ current_telegram e.receiving_telegram)
        × (ready.send_response_handlers ≡ e.send_response_handlers)
    kept = before_switches-Keeps dequeue received e
