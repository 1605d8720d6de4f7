-- ===== src/Tests/Items.antt =====
-- Items at a concrete telegram.
use esphome.Prelude.{◌≡◌, ◌↔◌, refl, [], ◌∷◌, true, false, replicate, arith}
use esphome.Telegram.{end_completed}
use esphome.Telegram.Received.{Telegram, get_response_nn}
use esphome.Item.{EbusItem, is_mine, get_response_bytes}
use esphome.Item.Decode.{little_endian, get_response_bytes-little_endian}
use esphome.Item.Match.{Mine, is_mine_iff}

-- A request for the pressure, and its response.
abbrev pressure : Telegram
pressure = record {
  base = record {
    state = end_completed;
    request_buffer = 0x10 ∷ 0x08 ∷ 0xB5 ∷ 0x09 ∷ 0x03 ∷ 0x0D ∷ 0x02 ∷ 0xA9 ∷ 137 ∷ replicate 13 0;
    request_buffer_pos = 9;
    request_rolling_crc = 137;
    wait_for_escaped_char = false;
  };
  response_buffer = 0x02 ∷ 0x34 ∷ 0x12 ∷ 0x5C ∷ replicate 14 0;
  response_buffer_pos = 4;
  response_rolling_crc = 0x5C;
}

abbrev pressure_item : EbusItem
pressure_item = record {
  address = 0x08;
  send_poll = true;
  command = 0xB509;
  payload = 0x0D ∷ 0x02 ∷ [];
  response_position = 0;
}

is_mine_iff_example : is_mine pressure_item pressure ≡ true ↔ Mine pressure_item pressure
is_mine_iff_example = is_mine_iff pressure_item pressure refl

get_response_bytes-little_endian_example : get_response_bytes pressure 0 2 ≡ 0x1234
unfolding little_endian get_response_nn
get_response_bytes-little_endian_example =
    get_response_bytes-little_endian pressure 0 2
      (record { sized = refl; bytes = ground arith; crc_byte = omega arith }) (omega arith)
