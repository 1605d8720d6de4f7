-- ===== src/Ebus/Receive.antt =====
-- `process_received_char` of esphome/components/ebus/ebus.cpp, the part about the telegram that is
-- being received: the first `switch`.
use esphome.Prelude.{ℕ, ◌==◌, if◌then◌else◌, Option, some, ◌>>=◌}
use esphome.Telegram.{
  TelegramState, wait_for_syn, wait_for_arbitration, wait_for_request_data, wait_for_request_ack,
  wait_for_response_data, wait_for_response_ack, end_arbitration, end_error_unexpected_syn,
  end_error_request_nack_received, end_error_request_no_ack, end_error_response_nack_received,
  end_error_response_no_ack, end_completed, syn, esc, ack, nack, get_zz, is_ack_expected,
  is_response_expected,
}
use esphome.Telegram.Received.{
  Telegram, to_state, push_request, push_response_data, is_request_complete, is_response_complete,
}

-- The state after the last byte of a request.
unfoldable pub after_request : Telegram → TelegramState
after_request t = if is_ack_expected t.base then wait_for_request_ack else end_completed

unfoldable pub push_request_byte : ℕ → Telegram → Option Telegram
unfolding to_state after_request
push_request_byte real_byte t = do
  t' ← push_request real_byte t
  some (if is_request_complete t' then to_state (after_request t') t' else t')

unfoldable pub push_response_byte : ℕ → Telegram → Option Telegram
unfolding to_state
push_response_byte real_byte t = do
  t' ← push_response_data real_byte t
  some (if is_response_complete t' then to_state wait_for_response_ack t' else t')

-- The state after the byte that acknowledges a request.
unfoldable pub after_request_ack : ℕ → Telegram → TelegramState
after_request_ack received_byte t =
    if received_byte == ack
    then if is_response_expected t.base then wait_for_response_data else end_completed
    else if received_byte == nack
    then end_error_request_nack_received
    else end_error_request_no_ack

-- The state after the byte that acknowledges a response.
unfoldable pub after_response_ack : ℕ → TelegramState
after_response_ack received_byte =
    if received_byte == ack
    then end_completed
    else if received_byte == nack
    then end_error_response_nack_received
    else end_error_response_no_ack

-- The `switch`, a clause for each `case`; the last clause is `default`.
unfoldable pub receive_in : TelegramState → ℕ → ℕ → Telegram → Option Telegram
unfolding to_state after_request_ack after_response_ack
receive_in wait_for_syn received_byte real_byte t =
    some (if received_byte == syn then to_state wait_for_arbitration t else t)
receive_in wait_for_arbitration received_byte real_byte t =
    if received_byte == syn
    then some t
    else do t' ← push_request real_byte t; some (to_state wait_for_request_data t')
receive_in wait_for_request_data received_byte real_byte t =
    if received_byte == syn
    then some
        (to_state (if get_zz t.base == esc then end_arbitration else end_error_unexpected_syn) t)
    else push_request_byte real_byte t
receive_in wait_for_request_ack received_byte real_byte t =
    some (to_state (after_request_ack received_byte t) t)
receive_in wait_for_response_data received_byte real_byte t =
    if received_byte == syn
    then some (to_state end_error_unexpected_syn t)
    else push_response_byte real_byte t
receive_in wait_for_response_ack received_byte real_byte t =
    some (to_state (after_response_ack received_byte) t)
receive_in _ received_byte real_byte t = some t

unfoldable pub receive_char : ℕ → ℕ → Telegram → Option Telegram
unfolding receive_in
receive_char received_byte real_byte t = receive_in t.state received_byte real_byte t
