-- ===== src/Ebus/Safety.antt =====
-- The receiving side of `process_received_char` never leaves the buffers of a telegram.
use esphome.Prelude.{
  ℕ, ◌+◌, ◌≤◌, ◌≡◌, refl, sym, subst, ◌∙◌, inl, inr, true, false, ◌==◌, if◌then◌else◌, Option, some,
  arith, Bool-cases,
}
use esphome.Telegram.{
  TelegramState, wait_for_syn, wait_for_send, wait_for_arbitration, wait_for_request_data,
  wait_for_request_ack, wait_for_response_data, wait_for_response_ack, wait_for_arbitration_2nd,
  wait_for_command_ack, end_completed, end_send_failed, get_nn, is_response_expected,
  is_ack_expected,
}
use esphome.Telegram.Received.{
  Telegram, new_telegram, to_state, push_request, get_response_nn, is_request_complete,
  is_response_complete,
}
use esphome.Telegram.Bounds.{
  IsRequest, IsResponse, new_base-IsRequest, new_telegram-IsResponse, PushesRequest, PushesResponse,
}
use esphome.Ebus.Receive.{push_request_byte, push_response_byte, after_request}

-- How far the two buffers are filled: `nn` and `response_nn` are the lengths that they announce.
abbrev pub Fits : TelegramState → Telegram → Type 0
Fits wait_for_syn t = (t.request_buffer_pos ≡ 0) × (t.response_buffer_pos ≡ 0)
Fits wait_for_arbitration t = (t.request_buffer_pos ≡ 0) × (t.response_buffer_pos ≡ 0)
Fits wait_for_request_data t =
    (t.request_buffer_pos ≤ 5 + get_nn t.base) × (t.response_buffer_pos ≡ 0)
Fits wait_for_request_ack t =
    (t.request_buffer_pos ≡ 6 + get_nn t.base) × (t.response_buffer_pos ≡ 0)
Fits wait_for_response_data t =
    (t.request_buffer_pos ≡ 6 + get_nn t.base) × (t.response_buffer_pos ≤ 1 + get_response_nn t)
Fits wait_for_response_ack t =
    (t.request_buffer_pos ≡ 6 + get_nn t.base) × (t.response_buffer_pos ≡ 2 + get_response_nn t)
Fits end_completed t =
    (t.request_buffer_pos ≡ 6 + get_nn t.base)
    × (is_response_expected t.base ≡ true → t.response_buffer_pos ≡ 2 + get_response_nn t)
Fits wait_for_send t = ⊥
Fits wait_for_arbitration_2nd t = ⊥
Fits wait_for_command_ack t = ⊥
Fits TelegramState.unknown t = ⊥
Fits end_send_failed t = ⊥
Fits _ t = Unit {0}

pub record IsReceiving (t : Telegram) : Type 0 where
  pub request : IsRequest t.base
  pub response : IsResponse t
  pub fits : Fits t.state t

pub new_telegram-IsReceiving : IsReceiving new_telegram
unfolding new_telegram
new_telegram-IsReceiving = record {
  request = new_base-IsRequest wait_for_syn;
  response = new_telegram-IsResponse;
  fits = (refl, refl);
}

-- The operation stays within the arrays, and its result is a telegram in a proper state.
pub record Receives (result : Option Telegram) : Type 0 where
  pub next : Telegram
  pub returns : result ≡ some next
  pub valid : IsReceiving next

pub stays :
    (s : TelegramState) (t : Telegram)
    → IsRequest t.base
    → IsResponse t
    → Fits s (to_state s t)
    → Receives (some (to_state s t))
unfolding to_state
stays s t rq rs f = record {
  next = to_state s t;
  returns = refl;
  valid = record { request = rq; response = rs; fits = f };
}

-- Where a request under way is complete.
pub is_request_complete-pos :
    (t : Telegram)
    → t.state ≡ wait_for_request_data
    → t.wait_for_escaped_char ≡ false
    → is_request_complete t ≡ (t.request_buffer_pos == 6 + get_nn t.base)
unfolding is_request_complete
is_request_complete-pos t s w = ground arith

is_response_complete-pos :
    (t : Telegram)
    → t.state ≡ wait_for_response_data
    → t.wait_for_escaped_char ≡ false
    → is_response_complete t ≡ (t.response_buffer_pos == 2 + get_response_nn t)
unfolding is_response_complete
is_response_complete-pos t s w = ground arith

after_request-Fits :
    (t : Telegram)
    → t.request_buffer_pos ≡ 6 + get_nn t.base
    → t.response_buffer_pos ≡ 0
    → Fits (after_request t) (to_state (after_request t) t)
unfolding after_request to_state get_nn get_response_nn is_ack_expected is_response_expected
after_request-Fits t full empty = elim (Bool-cases (is_ack_expected t.base)) [
  | inl expected ↦ rw expected (full, empty)
  | inr not_expected ↦ rw not_expected (full, λ e. ground arith)
]

-- A request after a byte was pushed.
request_grown-Receives :
    (t : Telegram)
    → IsRequest t.base
    → IsResponse t
    → t.state ≡ wait_for_request_data
    → t.request_buffer_pos ≤ 6 + get_nn t.base
    → t.response_buffer_pos ≡ 0
    → Receives (some (if is_request_complete t then to_state (after_request t) t else t))
request_grown-Receives t rq rs s below empty = elim (Bool-cases (is_request_complete t)) [
  | inl full ↦ rw full (
      stays (after_request t) t rq rs
        (after_request-Fits t (ground (arith, is_request_complete-pos t)) empty))
  | inr more ↦ rw more (record {
    next = t;
    returns = refl;
    valid = record {
      request = rq;
      response = rs;
      fits = subst (λ z. Fits z t) (sym s) (ground (arith, is_request_complete-pos t), empty);
    };
  })
]

push_request_byte-eq :
    (real : ℕ) (t : Telegram) (p : PushesRequest real t.base)
    → let t' = record t { base = p.next } in
      push_request_byte real t
      ≡ some (if is_request_complete t' then to_state (after_request t') t' else t')
unfolding push_request_byte push_request
push_request_byte-eq real t p = rw p.returns

pub push_request_byte-Receives :
    (real : ℕ) (t : Telegram)
    → IsResponse t
    → t.state ≡ wait_for_request_data
    → Fits wait_for_request_data t
    → PushesRequest real t.base
    → Receives (push_request_byte real t)
push_request_byte-Receives real t rs s f p = rw (push_request_byte-eq real t p) (
    request_grown-Receives (record t { base = p.next }) p.valid rs (p.same ∙ s)
      (ground (arith, p.further, p.announced)) f.1)

response_grown-Receives :
    (t : Telegram)
    → IsRequest t.base
    → IsResponse t
    → t.state ≡ wait_for_response_data
    → t.request_buffer_pos ≡ 6 + get_nn t.base
    → t.response_buffer_pos ≤ 2 + get_response_nn t
    → Receives (some (if is_response_complete t then to_state wait_for_response_ack t else t))
unfolding to_state get_nn get_response_nn
response_grown-Receives t rq rs s full below = elim (Bool-cases (is_response_complete t)) [
  | inl complete ↦
      rw complete
        (stays wait_for_response_ack t rq rs (full, ground (arith, is_response_complete-pos t)))
  | inr more ↦ rw more (record {
    next = t;
    returns = refl;
    valid = record {
      request = rq;
      response = rs;
      fits = subst (λ z. Fits z t) (sym s) (full, ground (arith, is_response_complete-pos t));
    };
  })
]

push_response_byte-eq :
    (real : ℕ) (t : Telegram) (p : PushesResponse real t)
    → push_response_byte real t
      ≡ some (if is_response_complete p.next then to_state wait_for_response_ack p.next else p.next)
unfolding push_response_byte
push_response_byte-eq real t p = rw p.returns

pub push_response_byte-Receives :
    (real : ℕ) (t : Telegram)
    → IsRequest t.base
    → t.state ≡ wait_for_response_data
    → Fits wait_for_response_data t
    → PushesResponse real t
    → Receives (push_response_byte real t)
push_response_byte-Receives real t rq s f p = rw (push_response_byte-eq real t p) (
    response_grown-Receives p.next (rw p.same rq) p.valid (rw p.same s) (rw p.same f.0)
      (ground (arith, p.further, p.announced)))
