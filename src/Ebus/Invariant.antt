-- ===== src/Ebus/Invariant.antt =====
-- `process_received_char` on every byte: no fault, and the receiving telegram stays proper.
use esphome.Prelude.{
  ℕ, ◌<◌, ◌≡◌, refl, sym, subst, inl, inr, Bool, true, false, ◌==◌, Option, some, ◌>>=◌, arith,
  Bool-cases, List, [],
}
use esphome.Telegram.{
  TelegramState, wait_for_syn, wait_for_arbitration, wait_for_request_data, wait_for_request_ack,
  wait_for_response_data, wait_for_response_ack, end_arbitration, end_error_unexpected_syn, get_nn,
  get_zz, is_finished, syn, esc, ack, nack, is_response_expected,
}
use esphome.Telegram.Received.{Telegram, new_telegram, to_state, push_request, get_response_nn}
use esphome.Telegram.Command.{SendCommand}
use esphome.Telegram.Bounds.{
  IsRequest, IsResponse, PushesRequest, push_req_data-PushesRequest,
  push_response_data-PushesResponse, get_nn-lt, get_response_nn-lt,
}
use esphome.Ebus.{Ebus, Effect}
use esphome.Ebus.Receive.{after_request_ack, after_response_ack, receive_in, receive_char}
use esphome.Ebus.Process.{
  unescape, Unescaped, real_byte, escape_begins, invalid_sequence, process_received_char,
  process_byte, process_unescaped, prepare, finish,
}
use esphome.Ebus.Receiver.{prepare_receiving, finish_receiving, fresh_telegram}
use esphome.Ebus.Safety.{
  Fits, IsReceiving, Receives, stays, new_telegram-IsReceiving, push_request_byte-Receives,
  push_response_byte-Receives,
}

unmoved : {t : Telegram} → IsReceiving t → Receives (some t)
unmoved {t} v = record { next = t; returns = refl; valid = v }

held :
    {s : TelegramState} (t : Telegram)
    → t.state ≡ s
    → IsRequest t.base
    → IsResponse t
    → Fits s t
    → IsReceiving t
held t e rq rs f = record { request = rq; response = rs; fits = subst (λ z. Fits z t) (sym e) f }

-- The first byte of a telegram.
first_byte-Receives :
    (real : ℕ) (t : Telegram)
    → IsResponse t
    → t.request_buffer_pos ≡ 0
    → t.response_buffer_pos ≡ 0
    → PushesRequest real t.base
    → Receives (push_request real t >>= λ t'. some (to_state wait_for_request_data t'))
unfolding push_request to_state get_nn
first_byte-Receives real t rs start empty p = rw p.returns (
    stays wait_for_request_data (record t { base = p.next }) p.valid rs
      (omega (arith, p.further), empty))

after_request_ack-Fits :
    (received : ℕ) (t : Telegram)
    → Fits wait_for_request_ack t
    → Fits (after_request_ack received t) (to_state (after_request_ack received t) t)
unfolding after_request_ack to_state get_nn get_response_nn is_response_expected
after_request_ack-Fits received t f = elim (Bool-cases (received == ack)) [
  | inl yes' ↦ rw yes' (elim (Bool-cases (is_response_expected t.base)) [
    | inl e ↦ rw e (f.0, omega arith)
    | inr e ↦ rw e (f.0, λ h. ground arith)
  ])
  | inr no' ↦ rw no' (elim (Bool-cases (received == nack)) [ inl e ↦ rw e tt | inr e ↦ rw e tt ])
]

after_response_ack-Fits :
    (received : ℕ) (t : Telegram)
    → Fits wait_for_response_ack t
    → Fits (after_response_ack received) (to_state (after_response_ack received) t)
unfolding after_response_ack to_state get_nn get_response_nn
after_response_ack-Fits received t f = elim (Bool-cases (received == ack)) [
  | inl yes' ↦ rw yes' (f.0, λ h. f.1)
  | inr no' ↦ rw no' (elim (Bool-cases (received == nack)) [ inl e ↦ rw e tt | inr e ↦ rw e tt ])
]

module _ (received real : ℕ) (h : real < 256) where
  request_data-Receives :
      (t : Telegram)
      → t.state ≡ wait_for_request_data
      → IsRequest t.base
      → IsResponse t
      → Fits wait_for_request_data t
      → Receives (receive_in wait_for_request_data received real t)
  unfolding receive_in
  request_data-Receives t e rq rs f = elim (Bool-cases (received == syn)) [
    | inl ended ↦ rw ended (elim (Bool-cases (get_zz t.base == esc)) [
      | inl lost ↦ rw lost (stays end_arbitration t rq rs tt)
      | inr broken ↦ rw broken (stays end_error_unexpected_syn t rq rs tt)
    ])
    | inr more ↦ rw more (
        push_request_byte-Receives real t rs e f
          (push_req_data-PushesRequest real t.base h rq (omega (arith, get_nn-lt t.base))))
  ]

  receive_in-Receives :
      (s : TelegramState) (t : Telegram)
      → t.state ≡ s
      → IsRequest t.base
      → IsResponse t
      → Fits s t
      → Receives (receive_in s received real t)
  unfolding receive_in to_state
  receive_in-Receives wait_for_syn t e rq rs f = elim (Bool-cases (received == syn)) [
    | inl found ↦ rw found (stays wait_for_arbitration t rq rs f)
    | inr other ↦ rw other (unmoved (held t e rq rs f))
  ]
  receive_in-Receives wait_for_arbitration t e rq rs f = elim (Bool-cases (received == syn)) [
    | inl again ↦ rw again (unmoved (held t e rq rs f))
    | inr first ↦ rw first (
        first_byte-Receives real t rs f.0 f.1
          (push_req_data-PushesRequest real t.base h rq (omega arith)))
  ]
  receive_in-Receives wait_for_request_data t e rq rs f = request_data-Receives t e rq rs f
  receive_in-Receives wait_for_request_ack t e rq rs f =
      stays (after_request_ack received t) t rq rs (after_request_ack-Fits received t f)
  receive_in-Receives wait_for_response_data t e rq rs f = elim (Bool-cases (received == syn)) [
    | inl broken ↦ rw broken (stays end_error_unexpected_syn t rq rs tt)
    | inr more ↦ rw more (
        push_response_byte-Receives real t rq e f
          (push_response_data-PushesResponse real t h rs (omega (arith, get_response_nn-lt t))))
  ]
  receive_in-Receives wait_for_response_ack t e rq rs f =
      stays (after_response_ack received) t rq rs (after_response_ack-Fits received t f)
  receive_in-Receives s t e rq rs f = unmoved (held t e rq rs f)

  receive_char-Receives : (t : Telegram) → IsReceiving t → Receives (receive_char received real t)
  unfolding receive_char
  receive_char-Receives t v = receive_in-Receives t.state t refl v.request v.response v.fits

-- What an escape stands for is a byte.
real_byte-lt :
    (in_esc : Bool) (received real : ℕ)
    → received < 256
    → unescape in_esc received ≡ real_byte real
    → real < 256
unfolding unescape
real_byte-lt in_esc received real h e = ground arith

-- `process_received_char` returns, in a state whose receiving telegram is proper.
pub record Processes (result : Option (Ebus × List Effect)) : Type 0 where
  pub next : Ebus
  pub effects : List Effect
  pub returns : result ≡ some (next, effects)
  pub valid : IsReceiving next.receiving_telegram

fresh_telegram-IsReceiving : {t : Telegram} → IsReceiving t → IsReceiving (fresh_telegram t)
unfolding fresh_telegram
fresh_telegram-IsReceiving {t} v = elim (Bool-cases (is_finished t.base)) [
  | inl ended ↦ rw ended new_telegram-IsReceiving
  | inr going ↦ rw going v
]

process_byte-Processes :
    (dequeue : Option (Option SendCommand)) (received real : ℕ) (e : Ebus)
    → real < 256
    → IsReceiving e.receiving_telegram
    → Processes (process_byte dequeue received real e)
unfolding process_byte
process_byte-Processes dequeue received real e h v =
    let done = finish received (prepare dequeue received e).1 ready in
    record {
      next = done.0;
      effects = done.1;
      returns = rw receives.returns refl;
      valid = subst IsReceiving (sym (finish_receiving received _ ready)) receives.valid;
    }
  where
    receives :
        Receives (receive_char received real (prepare dequeue received e).0.receiving_telegram)
    receives = receive_char-Receives received real h _ (
        subst IsReceiving (sym (prepare_receiving dequeue received e))
          (fresh_telegram-IsReceiving v))

    ready : Ebus
    ready = record (prepare dequeue received e).0 { receiving_telegram = receives.next }

process_unescaped-Processes :
    (u : Unescaped) (dequeue : Option (Option SendCommand)) (received : ℕ) (e : Ebus)
    → ((real : ℕ) → u ≡ real_byte real → real < 256)
    → IsReceiving e.receiving_telegram
    → Processes (process_unescaped u dequeue received e)
unfolding process_unescaped
process_unescaped-Processes escape_begins dequeue received e h v = record {
  next = record e { in_esc = true };
  effects = [];
  returns = refl;
  valid = v;
}
process_unescaped-Processes invalid_sequence dequeue received e h v = record {
  next = record e { in_esc = false; receiving_telegram = new_telegram };
  effects = [];
  returns = refl;
  valid = new_telegram-IsReceiving;
}
process_unescaped-Processes (real_byte real) dequeue received e h v =
    process_byte-Processes dequeue received real (record e { in_esc = false }) (h real refl) v

-- If the receiving telegram is proper, every byte is processed without a write outside a buffer,
-- whatever the other callbacks answer, and leaves it proper: its buffers hold bytes and have their
-- sizes, and they are filled as far as the telegram's state says.
pub process_received_char-Processes :
    (dequeue : Option (Option SendCommand)) (received : ℕ) (e : Ebus)
    → received < 256
    → IsReceiving e.receiving_telegram
    → Processes (process_received_char dequeue received e)
unfolding process_received_char
process_received_char-Processes dequeue received e h v =
    process_unescaped-Processes (unescape e.in_esc received) dequeue received e
      (λ real. real_byte-lt e.in_esc received real h) v
