-- ===== src/Zebus/Safety.antt =====
-- The first `switch` of `process_received_char` in esphome/components/zebus/include/ebus.cpp never
-- leaves the buffers of a telegram.
use esphome.Prelude.{
  ℕ, ◌+◌, ◌≤◌, ◌<◌, ◌≡◌, refl, sym, subst, ◌∙◌, ◌⊎◌, true, false, ◌==◌, if◌then◌else◌, length,
  length-set, set, Option, some, arith, u8, ltb,
}
use esphome.Telegram.{
  TelegramState, wait_for_syn, wait_for_arbitration, wait_for_request_data, wait_for_request_ack,
  wait_for_response_data, TelegramBase, syn, esc,
}
use esphome.Telegram.Received.{Telegram}
use esphome.Telegram.Bounds.{nn_after}
use esphome.Zebus.Elf.{crc8_calc}
use esphome.Zebus.Telegram.{
  get_nn, get_response_nn, push_req_data, push_request_data, enter, initial_telegram,
}

-- One place more while a byte behind an ESC is awaited.
abbrev pub waiting : Telegram → ℕ
waiting t = if t.wait_for_escaped_char then 1 else 0

pub get_nn-lt : (t : TelegramBase) → get_nn t < 16
unfolding get_nn
get_nn-lt t = ground arith

-- How far the two buffers are filled.
abbrev pub Fits : TelegramState → Telegram → Type 0
Fits wait_for_syn t =
    (t.request_buffer_pos ≡ 0) × (t.response_buffer_pos ≡ 0) × (t.wait_for_escaped_char ≡ false)
Fits wait_for_arbitration t =
    (t.request_buffer_pos ≡ 0) × (t.response_buffer_pos ≡ 0) × (t.wait_for_escaped_char ≡ false)
Fits wait_for_request_data t =
    (t.request_buffer_pos ≤ 5 + get_nn t.base + waiting t) × (t.response_buffer_pos ≡ 0)
Fits wait_for_request_ack t = (t.response_buffer_pos ≡ 0) × (t.wait_for_escaped_char ≡ false)
Fits wait_for_response_data t = t.response_buffer_pos ≤ 1 + get_response_nn t + waiting t
Fits _ t = Unit {0}

pub record IsStored (t : Telegram) : Type 0 where
  pub request_size : length t.request_buffer ≡ 22
  pub response_size : length t.response_buffer ≡ 18
  pub fits : Fits t.state t

pub initial_telegram-IsStored : IsStored initial_telegram
unfolding initial_telegram
initial_telegram-IsStored = record {
  request_size = refl;
  response_size = refl;
  fits = (refl, refl, refl);
}

-- The operation stays within the arrays, and its result is again properly filled.
pub record Stores (result : Option Telegram) : Type 0 where
  pub next : Telegram
  pub returns : result ≡ some next
  pub valid : IsStored next

-- What one byte does to a request.
pub record PushesByte (cr : ℕ) (t : Telegram) : Type 0 where
  pub next : Telegram
  pub returns : push_request_data cr t ≡ some next
  pub state : next.state ≡ t.state
  pub request_size : length next.request_buffer ≡ 22
  pub same_response : next.response_buffer ≡ t.response_buffer
  pub same_pos : next.response_buffer_pos ≡ t.response_buffer_pos
  pub further : next.request_buffer_pos + waiting t ≡ t.request_buffer_pos + 1
  pub announced : (t.request_buffer_pos ≡ 4) ⊎ (get_nn next.base ≡ get_nn t.base)
  pub awaits : t.wait_for_escaped_char ≡ true → next.wait_for_escaped_char ≡ false

-- The telegram behind a byte, whether it follows an ESC or not.
unfoldable pub pushed_request : ℕ → Telegram → Telegram
unfolding get_nn
pushed_request cr t = record t {
  base = record t.base {
    request_buffer =
        set t.request_buffer t.request_buffer_pos
          (if t.wait_for_escaped_char then if cr == 0x00 then esc else syn else cr);
    request_buffer_pos =
        if t.wait_for_escaped_char then t.request_buffer_pos else u8 (t.request_buffer_pos + 1);
    request_rolling_crc =
        if ltb t.request_buffer_pos (5 + get_nn t.base)
        then crc8_calc cr t.request_rolling_crc
        else t.request_rolling_crc;
    wait_for_escaped_char = if t.wait_for_escaped_char then false else cr == esc;
  };
}

pub push_request_data-pushed :
    (cr : ℕ) (t : Telegram)
    → t.request_buffer_pos < length t.request_buffer
    → push_request_data cr t ≡ some (pushed_request cr t)
unfolding push_request_data push_req_data pushed_request
push_request_data-pushed cr t below = ground arith

pub push_request_data-PushesByte :
    (cr : ℕ) (t : Telegram)
    → length t.request_buffer ≡ 22
    → t.request_buffer_pos < 22
    → PushesByte cr t
unfolding pushed_request get_nn
push_request_data-PushesByte cr t size below = record {
  next = pushed_request cr t;
  returns = push_request_data-pushed cr t (omega (arith, size));
  state = refl;
  request_size = length-set t.request_buffer t.request_buffer_pos _ ∙ size;
  same_response = refl;
  same_pos = refl;
  further = ground arith;
  announced = ground (
    arith,
    nn_after t.request_buffer 4 t.request_buffer_pos
        (if t.wait_for_escaped_char then if cr == 0x00 then esc else syn else cr),
  );
  awaits = λ w. rw (w);
}

pub moved :
    (s : TelegramState) (t : Telegram)
    → length t.request_buffer ≡ 22
    → length t.response_buffer ≡ 18
    → Fits s (enter s t)
    → Stores (some (enter s t))
unfolding enter
moved s t rq rs f = record {
  next = enter s t;
  returns = refl;
  valid = record { request_size = rq; response_size = rs; fits = f };
}

pub unmoved :
    {s : TelegramState} (t : Telegram)
    → t.state ≡ s
    → length t.request_buffer ≡ 22
    → length t.response_buffer ≡ 18
    → Fits s t
    → Stores (some t)
unmoved t e rq rs f = record {
  next = t;
  returns = refl;
  valid = record { request_size = rq; response_size = rs; fits = subst (λ z. Fits z t) (sym e) f };
}
