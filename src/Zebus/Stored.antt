-- ===== src/Zebus/Stored.antt =====
-- The first `switch` of `process_received_char` of esphome/components/zebus/include/ebus.cpp: no access
-- outside a buffer.
use esphome.Prelude.{ℕ, ◌≡◌, refl, ap, ◌∙◌, Bool-cases, inl, inr, ◌==◌, length, some, ◌>>=◌, arith}
use esphome.Telegram.{
  TelegramState, wait_for_syn, wait_for_arbitration, wait_for_request_data, wait_for_request_ack,
  wait_for_response_data, wait_for_response_ack, end_arbitration, end_error_unexpected_syn, syn,
  esc, ack, nack,
}
use esphome.Telegram.Received.{Telegram}
use esphome.Zebus.Telegram.{get_nn, push_request_data, enter, is_response_expected, get_zz}
use esphome.Zebus.Receive.{
  receive_byte_in, receive_byte, request_acknowledged, response_acknowledged,
}
use esphome.Zebus.Safety.{
  Fits, IsStored, Stores, moved, unmoved, PushesByte, push_request_data-PushesByte, get_nn-lt,
}
use esphome.Zebus.SafePushes.{store_request_byte-Stores, store_response_byte-Stores}

-- The first byte of a telegram.
first_byte-Stores :
    (cr : ℕ) (t : Telegram)
    → length t.response_buffer ≡ 18
    → Fits wait_for_arbitration t
    → PushesByte cr t
    → Stores (push_request_data cr t >>= λ t'. some (enter wait_for_request_data t'))
unfolding enter get_nn
first_byte-Stores cr t rs f p = rw (p.returns) (
    moved wait_for_request_data p.next p.request_size (ap length p.same_response ∙ rs)
      (ground (arith, p.further, f.0), p.same_pos ∙ f.1))

request_acknowledged-Fits :
    (received : ℕ) (t : Telegram)
    → Fits wait_for_request_ack t
    → Fits (request_acknowledged received t) (enter (request_acknowledged received t) t)
unfolding request_acknowledged enter
request_acknowledged-Fits received t f = elim (Bool-cases (received == ack)) [
  | inl yes' ↦ rw yes' (elim (Bool-cases (is_response_expected t.base)) [
    | inl e ↦ rw e (omega (arith, f.0))
    | inr e ↦ rw e tt
  ])
  | inr no' ↦ rw no' (elim (Bool-cases (received == nack)) [ inl e ↦ rw e tt | inr e ↦ rw e tt ])
]

response_acknowledged-Fits : (received : ℕ) (t : Telegram) → Fits (response_acknowledged received) t
unfolding response_acknowledged
response_acknowledged-Fits received t = elim (Bool-cases (received == ack)) [
  | inl yes' ↦ rw yes' tt
  | inr no' ↦ rw no' (elim (Bool-cases (received == nack)) [ inl e ↦ rw e tt | inr e ↦ rw e tt ])
]

module _ (received : ℕ) (t : Telegram) (rq : length t.request_buffer ≡ 22)
    (rs : length t.response_buffer ≡ 18) where
  receive_byte_in-Stores :
      (s : TelegramState) → t.state ≡ s → Fits s t → Stores (receive_byte_in s received t)
  unfolding receive_byte_in
  receive_byte_in-Stores wait_for_syn e f = elim (Bool-cases (received == syn)) [
    | inl found ↦ rw found (moved wait_for_arbitration t rq rs (unfold enter in f))
    | inr other ↦ rw other (unmoved t e rq rs f)
  ]
  receive_byte_in-Stores wait_for_arbitration e f = elim (Bool-cases (received == syn)) [
    | inl again ↦ rw again (unmoved t e rq rs f)
    | inr first ↦ rw first (
        first_byte-Stores received t rs f
          (push_request_data-PushesByte received t rq (omega (arith, f.0))))
  ]
  receive_byte_in-Stores wait_for_request_data e f = elim (Bool-cases (received == syn)) [
    | inl ended ↦ rw ended (elim (Bool-cases (get_zz t.base == esc)) [
      | inl lost ↦ rw lost (moved end_arbitration t rq rs tt)
      | inr broken ↦ rw broken (moved end_error_unexpected_syn t rq rs tt)
    ])
    | inr more ↦ rw more (
        store_request_byte-Stores received t e rs f
          (push_request_data-PushesByte received t rq (ground (arith, f.0, get_nn-lt t.base))))
  ]
  receive_byte_in-Stores wait_for_request_ack e f =
      moved (request_acknowledged received t) t rq rs (request_acknowledged-Fits received t f)
  receive_byte_in-Stores wait_for_response_data e f = elim (Bool-cases (received == syn)) [
    | inl broken ↦ rw broken (moved end_error_unexpected_syn t rq rs tt)
    | inr more ↦ rw more (store_response_byte-Stores received t e rq rs f)
  ]
  receive_byte_in-Stores wait_for_response_ack e f =
      moved (response_acknowledged received) t rq rs (response_acknowledged-Fits received _)
  receive_byte_in-Stores s e f = unmoved t e rq rs f

pub receive_byte-Stores :
    (received : ℕ) (t : Telegram) → IsStored t → Stores (receive_byte received t)
unfolding receive_byte
receive_byte-Stores received t v =
    receive_byte_in-Stores received t v.request_size v.response_size t.state refl v.fits
