-- ===== src/Zebus/Telegram.antt =====
-- esphome/components/zebus/include/telegram.h and telegram.cpp: `TelegramBase` and `Telegram`. Unlike
-- the later driver's, its `pushBuffer` undoes escapes. A write outside an array is `none`.
use esphome.Prelude.{
  ℕ, ◌+◌, Bool, false, ◌&&◌, ◌||◌, not, ◌==◌, ltb, leb, if◌then◌else◌, u8, List, ◌∷◌, length,
  get_or, set, replicate, Option, none, some, ◌>>=◌, ℤ, pos, negsuc, lt_int,
}
use esphome.Zebus.Types.{
  TelegramBase, syn, esc, broadcast_address, max_data_length, offset_qq, offset_zz, offset_pb,
  offset_sb, offset_nn, offset_data, response_buffer_size, response_offset, invalid_response_byte,
  Telegram,
}
use esphome.Telegram.{
  TelegramType, broadcast, primary_primary, primary_secondary, TelegramState, wait_for_syn,
  end_completed, state_value, same_state, same_type,
}
use esphome.Zebus.Elf.{crc8_calc, is_master}

-- The members' initialisers; the constructor of each subclass sets the state.
unfoldable pub initial_base : TelegramState → TelegramBase
initial_base state = record {
  state = state;
  request_buffer = esc ∷ esc ∷ replicate 20 0;
  request_buffer_pos = 0;
  request_rolling_crc = 0;
  wait_for_escaped_char = false;
}

-- `Telegram()`.
unfoldable pub initial_telegram : Telegram
unfolding initial_base
initial_telegram = record {
  base = initial_base wait_for_syn;
  response_buffer = replicate response_buffer_size 0;
  response_buffer_pos = 0;
  response_rolling_crc = 0;
}

module _ (t : TelegramBase) where
  unfoldable pub get_qq : ℕ
  get_qq = get_or t.request_buffer offset_qq 0

  unfoldable pub get_zz : ℕ
  get_zz = get_or t.request_buffer offset_zz 0

  unfoldable pub get_pb : ℕ
  get_pb = get_or t.request_buffer offset_pb 0

  unfoldable pub get_sb : ℕ
  get_sb = get_or t.request_buffer offset_sb 0

  unfoldable pub get_nn : ℕ
  get_nn = let nn = get_or t.request_buffer offset_nn 0 in if leb max_data_length nn then 0 else nn

  unfoldable pub get_type : TelegramType
  unfolding get_zz
  get_type =
      if get_zz == esc
      then TelegramType.unknown
      else if get_zz == broadcast_address
      then broadcast
      else if is_master get_zz
      then primary_primary
      else primary_secondary

  -- An `int16_t`: -1 where there is no such byte.
  unfoldable pub get_request_byte : ℕ → ℤ
  unfolding get_nn
  get_request_byte i =
      if ltb get_nn i || leb max_data_length i
      then negsuc 0
      else pos (get_or t.request_buffer (offset_data + i) 0)

  unfoldable pub get_request_crc : ℕ
  unfolding get_nn
  get_request_crc = get_or t.request_buffer (offset_data + get_nn) 0

  unfoldable pub is_ack_expected : Bool
  unfolding get_type
  is_ack_expected = not (same_type get_type broadcast)

  unfoldable pub is_response_expected : Bool
  unfolding get_type
  is_response_expected = same_type get_type primary_secondary

  unfoldable pub is_finished : Bool
  is_finished = lt_int (state_value t.state) (state_value TelegramState.unknown)

-- `pushBuffer`: `waitForEscaped`, then what is behind the three pointers; the results are the buffer,
-- the position, the CRC and `waitForEscaped`. The byte behind an ESC is written where the next one
-- will be.
unfoldable pub push_buffer : ℕ → Bool → List ℕ → ℕ → ℕ → ℕ → Option (List ℕ × ℕ × ℕ × Bool)
push_buffer cr wait_for_escaped buffer at crc max_pos =
    let crc' = if ltb at max_pos then crc8_calc cr crc else crc in
    if not (ltb at (length buffer))
    then none
    else if wait_for_escaped
    then some (set buffer at (if cr == 0x00 then esc else syn), at, crc', false)
    else some (set buffer at cr, u8 (at + 1), crc', cr == esc)

unfoldable pub set_state : TelegramState → TelegramBase → TelegramBase
set_state new_state t = record t { state = new_state }

unfoldable pub push_req_data : ℕ → TelegramBase → Option TelegramBase
unfolding push_buffer get_nn
push_req_data cr t = do
  (buffer, at, crc, waits) ←
      push_buffer cr t.wait_for_escaped_char t.request_buffer t.request_buffer_pos
        t.request_rolling_crc (offset_data + get_nn t)
  some (record t {
    request_buffer = buffer;
    request_buffer_pos = at;
    request_rolling_crc = crc;
    wait_for_escaped_char = waits;
  })

-- The two operations on a `Telegram`.
unfoldable pub enter : TelegramState → Telegram → Telegram
unfolding set_state
enter new_state t = record t { base = set_state new_state t.base }

unfoldable pub push_request_data : ℕ → Telegram → Option Telegram
unfolding push_req_data
push_request_data cr t = do base ← push_req_data cr t.base; some (record t { base = base })

module _ (t : Telegram) where
  unfoldable pub get_response_nn : ℕ
  get_response_nn =
      let nn = get_or t.response_buffer 0 0 in if leb max_data_length nn then 0 else nn

  -- An `int16_t` that is never negative, since `INVALID_RESPONSE_BYTE` is a `uint8_t`.
  unfoldable pub get_response_byte : ℕ → ℕ
  unfolding get_response_nn
  get_response_byte i =
      if ltb get_response_nn i || leb max_data_length i
      then invalid_response_byte
      else get_or t.response_buffer (response_offset + i) 0

  unfoldable pub get_response_crc : ℕ
  unfolding get_response_nn
  get_response_crc = get_or t.response_buffer (response_offset + get_response_nn) 0

  -- A telegram that is past the SYN, or complete.
  abbrev pub is_begun : Bool
  is_begun =
      lt_int (state_value wait_for_syn) (state_value t.state) || same_state t.state end_completed

  unfoldable pub is_response_complete : Bool
  unfolding get_response_nn
  is_response_complete =
      is_begun
      && (ltb response_offset t.response_buffer_pos
          && (t.response_buffer_pos == response_offset + get_response_nn + 1
              && not t.wait_for_escaped_char))

  unfoldable pub is_response_valid : Bool
  unfolding is_response_complete get_response_crc
  is_response_valid = is_response_complete && get_response_crc == t.response_rolling_crc

  unfoldable pub is_request_complete : Bool
  unfolding get_nn
  is_request_complete =
      is_begun
      && (ltb offset_data t.request_buffer_pos
          && (t.request_buffer_pos == offset_data + get_nn t.base + 1
              && not t.wait_for_escaped_char))

  unfoldable pub is_request_valid : Bool
  unfolding is_request_complete get_request_crc
  is_request_valid = is_request_complete && get_request_crc t.base == t.request_rolling_crc

unfoldable pub push_resp_data : ℕ → Telegram → Option Telegram
unfolding push_buffer get_response_nn
push_resp_data cr t = do
  (buffer, at, crc, waits) ←
      push_buffer cr t.wait_for_escaped_char t.response_buffer t.response_buffer_pos
        t.response_rolling_crc (response_offset + get_response_nn t)
  some (record t {
    base = record t.base { wait_for_escaped_char = waits };
    response_buffer = buffer;
    response_buffer_pos = at;
    response_rolling_crc = crc;
  })
