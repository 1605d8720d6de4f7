-- ===== src/Zebus/Receive.antt =====
-- `process_received_char` of esphome/components/zebus/include/ebus.cpp, the part about the telegram
-- that is being received: the first `switch`.
use esphome.Prelude.{ℕ, ◌==◌, if◌then◌else◌, Option, some, ◌>>=◌}
use esphome.Zebus.Types.{syn, esc, ack, nack, Telegram}
use esphome.Telegram.{
  TelegramState, wait_for_syn, wait_for_arbitration, wait_for_request_data, wait_for_request_ack,
  wait_for_response_data, wait_for_response_ack, end_arbitration, end_error_unexpected_syn,
  end_error_request_nack_received, end_error_request_no_ack, end_error_response_nack_received,
  end_error_response_no_ack, end_completed,
}
use esphome.Zebus.Telegram.{
  enter, push_request_data, push_resp_data, get_zz, is_ack_expected, is_response_expected,
  is_request_complete, is_response_complete,
}

unfoldable pub store_request_byte : ℕ → Telegram → Option Telegram
unfolding enter
store_request_byte received_byte t = do
  t' ← push_request_data received_byte t
  some (
      if is_request_complete t'
      then enter (if is_ack_expected t'.base then wait_for_request_ack else end_completed) t'
      else t')

unfoldable pub store_response_byte : ℕ → Telegram → Option Telegram
unfolding enter
store_response_byte received_byte t = do
  t' ← push_resp_data received_byte t
  some (if is_response_complete t' then enter wait_for_response_ack t' else t')

-- The inner `switch` at the byte that acknowledges a request.
unfoldable pub request_acknowledged : ℕ → Telegram → TelegramState
request_acknowledged received_byte t =
    if received_byte == ack
    then if is_response_expected t.base then wait_for_response_data else end_completed
    else if received_byte == nack
    then end_error_request_nack_received
    else end_error_request_no_ack

-- The inner `switch` at the byte that acknowledges a response.
unfoldable pub response_acknowledged : ℕ → TelegramState
response_acknowledged received_byte =
    if received_byte == ack
    then end_completed
    else if received_byte == nack
    then end_error_response_nack_received
    else end_error_response_no_ack

-- The `switch`, a clause for each `case`; the last clause is `default`.
unfoldable pub receive_byte_in : TelegramState → ℕ → Telegram → Option Telegram
unfolding enter request_acknowledged response_acknowledged
receive_byte_in wait_for_syn received_byte t =
    some (if received_byte == syn then enter wait_for_arbitration t else t)
receive_byte_in wait_for_arbitration received_byte t =
    if received_byte == syn
    then some t
    else do t' ← push_request_data received_byte t; some (enter wait_for_request_data t')
receive_byte_in wait_for_request_data received_byte t =
    if received_byte == syn
    then some (enter (if get_zz t.base == esc then end_arbitration else end_error_unexpected_syn) t)
    else store_request_byte received_byte t
receive_byte_in wait_for_request_ack received_byte t =
    some (enter (request_acknowledged received_byte t) t)
receive_byte_in wait_for_response_data received_byte t =
    if received_byte == syn
    then some (enter end_error_unexpected_syn t)
    else store_response_byte received_byte t
receive_byte_in wait_for_response_ack received_byte t =
    some (enter (response_acknowledged received_byte) t)
receive_byte_in _ received_byte t = some t

unfoldable pub receive_byte : ℕ → Telegram → Option Telegram
unfolding receive_byte_in
receive_byte received_byte t = receive_byte_in t.state received_byte t
