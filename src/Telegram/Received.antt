-- ===== src/Telegram/Received.antt =====
-- The class `Telegram` of esphome/components/ebus/telegram.h and telegram.cpp: a telegram as it is
-- received, with the response of the secondary.
use esphome.Prelude.{
  ℕ, ◌+◌, Bool, ◌&&◌, ◌||◌, not, ◌==◌, ltb, leb, if◌then◌else◌, List, get_or, replicate, Option,
  some, ◌>>=◌, lt_int,
}
use esphome.Telegram.{
  TelegramState, wait_for_syn, end_completed, state_value, same_state, TelegramBase, new_base,
  sizeof_telegram_base, push_buffer, set_state, push_req_data, get_nn, get_request_crc,
  max_data_length, offset_data, response_buffer_size, response_offset, invalid_response_byte,
}

pub record Telegram : Type 0 where
  pub base : TelegramBase
  pub open base use *
  pub response_buffer : List ℕ
  pub response_buffer_pos : ℕ
  pub response_rolling_crc : ℕ

abbrev pub sizeof_telegram : ℕ
sizeof_telegram = sizeof_telegram_base + response_buffer_size + 1 + 1

unfoldable pub new_telegram : Telegram
unfolding new_base
new_telegram = record {
  base = new_base wait_for_syn;
  response_buffer = replicate response_buffer_size 0;
  response_buffer_pos = 0;
  response_rolling_crc = 0;
}

unfoldable pub to_state : TelegramState → Telegram → Telegram
unfolding set_state
to_state new_state t = record t { base = set_state new_state t.base }

unfoldable pub push_request : ℕ → Telegram → Option Telegram
unfolding push_req_data
push_request cr t = do base ← push_req_data cr t.base; some (record t { base = base })

module _ (t : Telegram) where
  unfoldable pub get_response_nn : ℕ
  get_response_nn =
      let nn = get_or t.response_buffer 0 0 in if leb max_data_length nn then 0 else nn

  -- An `int16_t` that is never negative, since `INVALID_RESPONSE_BYTE` is a `uint8_t`.
  unfoldable pub get_response_byte : ℕ → ℕ
  unfolding get_response_nn
  get_response_byte i =
      if ltb get_response_nn i || leb max_data_length i
      then invalid_response_byte
      else get_or t.response_buffer (response_offset + i) 0

  unfoldable pub get_response_crc : ℕ
  unfolding get_response_nn
  get_response_crc = get_or t.response_buffer (response_offset + get_response_nn) 0

  -- A telegram that is past the SYN, or complete.
  abbrev is_under_way : Bool
  is_under_way =
      lt_int (state_value wait_for_syn) (state_value t.state) || same_state t.state end_completed

  unfoldable pub is_response_complete : Bool
  unfolding get_response_nn
  is_response_complete =
      is_under_way
      && (ltb response_offset t.response_buffer_pos
          && (t.response_buffer_pos == response_offset + get_response_nn + 1
              && not t.wait_for_escaped_char))

  unfoldable pub is_response_valid : Bool
  unfolding is_response_complete get_response_crc
  is_response_valid = is_response_complete && get_response_crc == t.response_rolling_crc

  unfoldable pub is_request_complete : Bool
  unfolding get_nn
  is_request_complete =
      is_under_way
      && (ltb offset_data t.request_buffer_pos
          && (t.request_buffer_pos == offset_data + get_nn t.base + 1
              && not t.wait_for_escaped_char))

  unfoldable pub is_request_valid : Bool
  unfolding is_request_complete get_request_crc
  is_request_valid = is_request_complete && get_request_crc t.base == t.request_rolling_crc

unfoldable pub push_response_data : ℕ → Telegram → Option Telegram
unfolding push_buffer get_response_nn
push_response_data cr t = do
  (buffer, at, crc) ←
      push_buffer cr t.response_buffer t.response_buffer_pos t.response_rolling_crc
        (response_offset + get_response_nn t)
  some (record t { response_buffer = buffer; response_buffer_pos = at; response_rolling_crc = crc })
