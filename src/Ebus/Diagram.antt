-- ===== src/Ebus/Diagram.antt =====
-- The states of the telegram that is being received, as a diagram.
use esphome.Prelude.{ℕ, ◌≡◌, ◌≢◌, ◌⊎◌, refl, some, Bool, true, false, arith}
use esphome.Telegram.{
  TelegramState, wait_for_syn, wait_for_arbitration, wait_for_request_data, wait_for_request_ack,
  wait_for_response_data, wait_for_response_ack, end_arbitration, end_error_unexpected_syn,
  end_error_request_nack_received, end_error_request_no_ack, end_error_response_nack_received,
  end_error_response_no_ack, end_completed, syn, esc, ack, nack, get_zz, get_type, is_ack_expected,
  is_response_expected,
}
use esphome.Telegram.Received.{
  Telegram, push_request, push_response_data, to_state, is_request_complete, is_response_complete,
  get_response_nn,
}
use esphome.Ebus.Receive.{
  push_request_byte, push_response_byte, receive_in, receive_char, after_request,
}

-- Whether the state is one of the six that a received telegram passes.
abbrev pub is_open : TelegramState → Bool
is_open wait_for_syn = true
is_open wait_for_arbitration = true
is_open wait_for_request_data = true
is_open wait_for_request_ack = true
is_open wait_for_response_data = true
is_open wait_for_response_ack = true
is_open _ = false

-- What a received byte may do to the state of `t`; `t'` is the telegram behind it.
pub data Moves (received : ℕ) (t t' : Telegram) : TelegramState → TelegramState → Type 0 where
  found : received ≡ syn → Moves received t t' wait_for_syn wait_for_arbitration
  missed : received ≢ syn → Moves received t t' wait_for_syn wait_for_syn
  begun : received ≢ syn → Moves received t t' wait_for_arbitration wait_for_request_data
  repeated : received ≡ syn → Moves received t t' wait_for_arbitration wait_for_arbitration
  lost :
      received ≡ syn
      → get_zz t.base ≡ esc
      → Moves received t t' wait_for_request_data end_arbitration
  cut :
      received ≡ syn
      → get_zz t.base ≢ esc
      → Moves received t t' wait_for_request_data end_error_unexpected_syn
  continued :
      received ≢ syn
      → is_request_complete t' ≡ false
      → Moves received t t' wait_for_request_data wait_for_request_data
  asked :
      received ≢ syn
      → is_request_complete t' ≡ true
      → is_ack_expected t'.base ≡ true
      → Moves received t t' wait_for_request_data wait_for_request_ack
  told :
      received ≢ syn
      → is_request_complete t' ≡ true
      → is_ack_expected t'.base ≡ false
      → Moves received t t' wait_for_request_data end_completed
  taken :
      received ≡ ack
      → is_response_expected t.base ≡ true
      → Moves received t t' wait_for_request_ack wait_for_response_data
  done :
      received ≡ ack
      → is_response_expected t.base ≡ false
      → Moves received t t' wait_for_request_ack end_completed
  refused :
      received ≡ nack → Moves received t t' wait_for_request_ack end_error_request_nack_received
  ignored :
      received ≢ ack
      → received ≢ nack
      → Moves received t t' wait_for_request_ack end_error_request_no_ack
  cut_response :
      received ≡ syn → Moves received t t' wait_for_response_data end_error_unexpected_syn
  answering :
      received ≢ syn
      → is_response_complete t' ≡ false
      → Moves received t t' wait_for_response_data wait_for_response_data
  answered :
      received ≢ syn
      → is_response_complete t' ≡ true
      → Moves received t t' wait_for_response_data wait_for_response_ack
  accepted : received ≡ ack → Moves received t t' wait_for_response_ack end_completed
  rejected :
      received ≡ nack → Moves received t t' wait_for_response_ack end_error_response_nack_received
  dropped :
      received ≢ ack
      → received ≢ nack
      → Moves received t t' wait_for_response_ack end_error_response_no_ack
  over : {s : TelegramState} → is_open s ≡ false → t' ≡ t → Moves received t t' s s

push_request_byte-state :
    (real : ℕ) (t t' : Telegram)
    → t.state ≡ wait_for_request_data
    → push_request_byte real t ≡ some t'
    → ((t'.state ≡ wait_for_request_data) × (is_request_complete t' ≡ false))
      ⊎ ((t'.state ≡ wait_for_request_ack)
          × (is_request_complete t' ≡ true)
          × (is_ack_expected t'.base ≡ true))
      ⊎ ((t'.state ≡ end_completed)
          × (is_request_complete t' ≡ true)
          × (is_ack_expected t'.base ≡ false))
unfolding push_request_byte push_request is_request_complete after_request is_ack_expected get_type
    get_zz to_state
push_request_byte-state real t t' s e = ground arith

push_response_byte-state :
    (real : ℕ) (t t' : Telegram)
    → t.state ≡ wait_for_response_data
    → push_response_byte real t ≡ some t'
    → ((t'.state ≡ wait_for_response_data) × (is_response_complete t' ≡ false))
      ⊎ ((t'.state ≡ wait_for_response_ack) × (is_response_complete t' ≡ true))
unfolding push_response_byte push_response_data is_response_complete get_response_nn to_state
push_response_byte-state real t t' s e = ground arith

module _ (received real : ℕ) (t t' : Telegram) where
  -- Each `case` of the switch.
  syn-Moves :
      t.state ≡ wait_for_syn
      → receive_in wait_for_syn received real t ≡ some t'
      → Moves received t t' wait_for_syn t'.state
  unfolding receive_in
  syn-Moves s e = grind (arith, found, missed)

  first-Moves :
      t.state ≡ wait_for_arbitration
      → receive_in wait_for_arbitration received real t ≡ some t'
      → Moves received t t' wait_for_arbitration t'.state
  unfolding receive_in push_request
  first-Moves s e = grind (arith, begun, repeated)

  request-Moves :
      t.state ≡ wait_for_request_data
      → receive_in wait_for_request_data received real t ≡ some t'
      → Moves received t t' wait_for_request_data t'.state
  unfolding receive_in
  request-Moves s e =
      grind (arith, lost, cut, continued, asked, told, push_request_byte-state real t t')

  request_ack-Moves :
      receive_in wait_for_request_ack received real t ≡ some t'
      → Moves received t t' wait_for_request_ack t'.state
  unfolding receive_in
  request_ack-Moves e = grind (arith, taken, done, refused, ignored)

  response-Moves :
      t.state ≡ wait_for_response_data
      → receive_in wait_for_response_data received real t ≡ some t'
      → Moves received t t' wait_for_response_data t'.state
  unfolding receive_in
  response-Moves s e =
      grind (arith, cut_response, answering, answered, push_response_byte-state real t t')

  response_ack-Moves :
      receive_in wait_for_response_ack received real t ≡ some t'
      → Moves received t t' wait_for_response_ack t'.state
  unfolding receive_in
  response_ack-Moves e = grind (arith, accepted, rejected, dropped)

receive_in-Moves :
    (s : TelegramState) (received real : ℕ) (t t' : Telegram)
    → t.state ≡ s
    → receive_in s received real t ≡ some t'
    → Moves received t t' s t'.state
receive_in-Moves wait_for_syn received real t t' s e = syn-Moves received real t t' s e
receive_in-Moves wait_for_arbitration received real t t' s e = first-Moves received real t t' s e
receive_in-Moves wait_for_request_data received real t t' s e = request-Moves received real t t' s e
receive_in-Moves wait_for_request_ack received real t t' s e =
    request_ack-Moves received real t t' e
receive_in-Moves wait_for_response_data received real t t' s e =
    response-Moves received real t t' s e
receive_in-Moves wait_for_response_ack received real t t' s e =
    response_ack-Moves received real t t' e
receive_in-Moves s received real t t' h e = unfold receive_in in grind (arith, over)

-- Every received byte that is stored without a write outside a buffer moves the state of the
-- telegram along an edge of the diagram, on the condition that the edge names: which byte it is,
-- whether the request or the response is complete behind it, whether an acknowledgement or a response
-- is expected, and whether the secondary address is there. So the states that wait for an
-- acknowledgement are left by the next byte, whatever it is, and a telegram that has ended, or is in
-- no state of a reception, is left as it is.
pub receive_char-Moves :
    (received real : ℕ) (t t' : Telegram)
    → receive_char received real t ≡ some t'
    → Moves received t t' t.state t'.state
unfolding receive_char
receive_char-Moves received real t t' e = receive_in-Moves t.state received real t t' refl e
