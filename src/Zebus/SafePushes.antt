-- ===== src/Zebus/SafePushes.antt =====
-- A pushed byte in the first `switch` of `process_received_char` in
-- esphome/components/zebus/include/ebus.cpp does not leave the buffers of a telegram.
use esphome.Prelude.{
  ℕ, ◌+◌, ◌≤◌, ◌<◌, ◌≡◌, ap, ◌∙◌, Bool-cases, inl, inr, true, false, ◌==◌, if◌then◌else◌, length,
  length-set, set, some, arith, u8, ltb,
}
use esphome.Telegram.{
  wait_for_request_data, wait_for_request_ack, wait_for_response_data, wait_for_response_ack,
  end_completed, syn, esc,
}
use esphome.Telegram.Received.{Telegram}
use esphome.Telegram.Bounds.{nn_after}
use esphome.Zebus.Elf.{crc8_calc}
use esphome.Zebus.Telegram.{
  get_nn, get_response_nn, push_resp_data, enter, is_request_complete, is_response_complete,
  is_ack_expected,
}
use esphome.Zebus.Receive.{store_request_byte, store_response_byte}
use esphome.Zebus.Safety.{waiting, Fits, Stores, PushesByte, moved, unmoved}

-- After the last byte of a request.
ended-Stores :
    (t : Telegram)
    → length t.request_buffer ≡ 22
    → length t.response_buffer ≡ 18
    → t.response_buffer_pos ≡ 0
    → t.wait_for_escaped_char ≡ false
    → Stores
        (some (enter (if is_ack_expected t.base then wait_for_request_ack else end_completed) t))
ended-Stores t rq rs empty closed = elim (Bool-cases (is_ack_expected t.base)) [
  | inl e ↦ rw (e) (moved wait_for_request_ack t rq rs (unfold enter in (empty, closed)))
  | inr e ↦ rw (e) (moved end_completed t rq rs tt)
]

complete-closed : (t : Telegram) → is_request_complete t ≡ true → t.wait_for_escaped_char ≡ false
unfolding is_request_complete
complete-closed t full = ground arith

-- There is room for the next byte while the request is not complete.
incomplete-Fits :
    (t : Telegram)
    → t.state ≡ wait_for_request_data
    → is_request_complete t ≡ false
    → t.request_buffer_pos ≤ 6 + get_nn t.base
    → t.request_buffer_pos ≤ 5 + get_nn t.base + waiting t
unfolding is_request_complete
incomplete-Fits t s more below = ground arith

grown_pos :
    (cr : ℕ) (t : Telegram)
    → Fits wait_for_request_data t
    → (p : PushesByte cr t) → p.next.request_buffer_pos ≤ 6 + get_nn p.next.base
grown_pos cr t f p = ground (arith, p.further, p.announced, f.0)

pub store_request_byte-Stores :
    (cr : ℕ) (t : Telegram)
    → t.state ≡ wait_for_request_data
    → length t.response_buffer ≡ 18
    → Fits wait_for_request_data t
    → PushesByte cr t
    → Stores (store_request_byte cr t)
unfolding store_request_byte
store_request_byte-Stores cr t e rs f p =
    rw (p.returns) (elim (Bool-cases (is_request_complete p.next)) [
      | inl full ↦
          rw (full)
            (ended-Stores p.next p.request_size same_size same_empty (complete-closed p.next full))
      | inr more ↦ rw (more) (
          unmoved p.next (p.state ∙ e) p.request_size same_size
            (incomplete-Fits p.next (p.state ∙ e) more (grown_pos cr t f p), same_empty))
    ])
  where
    same_size : length p.next.response_buffer ≡ 18
    same_size = ap length p.same_response ∙ rs

    same_empty : p.next.response_buffer_pos ≡ 0
    same_empty = p.same_pos ∙ f.1

get_response_nn-lt : (t : Telegram) → get_response_nn t < 16
unfolding get_response_nn
get_response_nn-lt t = ground arith

-- The same for a byte of a response.
unfoldable pub pushed_response : ℕ → Telegram → Telegram
unfolding get_response_nn
pushed_response cr t = record t {
  base = record t.base {
    wait_for_escaped_char = if t.wait_for_escaped_char then false else cr == esc;
  };
  response_buffer =
      set t.response_buffer t.response_buffer_pos
        (if t.wait_for_escaped_char then if cr == 0x00 then esc else syn else cr);
  response_buffer_pos =
      if t.wait_for_escaped_char then t.response_buffer_pos else u8 (t.response_buffer_pos + 1);
  response_rolling_crc =
      if ltb t.response_buffer_pos (1 + get_response_nn t)
      then crc8_calc cr t.response_rolling_crc
      else t.response_rolling_crc;
}

pub push_resp_data-pushed :
    (cr : ℕ) (t : Telegram)
    → t.response_buffer_pos < length t.response_buffer
    → push_resp_data cr t ≡ some (pushed_response cr t)
unfolding push_resp_data pushed_response
push_resp_data-pushed cr t below = ground arith

incomplete_response-Fits :
    (t : Telegram)
    → t.state ≡ wait_for_response_data
    → is_response_complete t ≡ false
    → t.response_buffer_pos ≤ 2 + get_response_nn t
    → t.response_buffer_pos ≤ 1 + get_response_nn t + waiting t
unfolding is_response_complete
incomplete_response-Fits t s more below = ground arith

response_grown_pos :
    (cr : ℕ) (t : Telegram)
    → length t.response_buffer ≡ 18
    → Fits wait_for_response_data t
    → (pushed_response cr t).response_buffer_pos ≤ 2 + get_response_nn (pushed_response cr t)
unfolding pushed_response get_response_nn
response_grown_pos cr t size f = ground (
  arith,
  nn_after t.response_buffer 0 t.response_buffer_pos
      (if t.wait_for_escaped_char then if cr == 0x00 then esc else syn else cr),
)

pub store_response_byte-Stores :
    (cr : ℕ) (t : Telegram)
    → t.state ≡ wait_for_response_data
    → length t.request_buffer ≡ 22
    → length t.response_buffer ≡ 18
    → Fits wait_for_response_data t
    → Stores (store_response_byte cr t)
unfolding store_response_byte pushed_response
store_response_byte-Stores cr t e rq rs f =
    rw (push_resp_data-pushed cr t (ground (arith, rs, get_response_nn-lt t)))
      (elim (Bool-cases (is_response_complete next)) [
        | inl full ↦ rw (full) (moved wait_for_response_ack next rq size tt)
        | inr more ↦ rw (more) (
            unmoved next e rq size
              (incomplete_response-Fits next e more (response_grown_pos cr t rs f)))
      ])
  where
    next : Telegram
    next = pushed_response cr t

    size : length next.response_buffer ≡ 18
    size = length-set t.response_buffer t.response_buffer_pos _ ∙ rs
