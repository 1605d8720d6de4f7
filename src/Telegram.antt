-- ===== src/Telegram.antt =====
-- esphome/components/ebus/telegram.h and telegram.cpp: the telegram states and types, the buffers
-- of `TelegramBase` and their operations. `Telegram` is in Received, `SendCommand` in Command.
-- A write outside an array, which C++ leaves undefined, is `none`. The arrays are lists of bytes;
-- reads are at positions below the arrays' sizes.
pub mod Received
pub mod Bounds
pub mod Frame
pub mod Sent
pub mod Command
use esphome.Prelude.{
  ℕ, ◌+◌, ◌*◌, ◌^◌, bit_or, Bool, true, false, ◌&&◌, ◌||◌, not, ◌==◌, ltb, leb, if◌then◌else◌, u8,
  List, ◌∷◌, length, get_or, set, replicate, Option, none, some, ◌>>=◌, ℤ, pos, negsuc, lt_int,
  eq_int,
}
use esphome.Elf.{crc8_calc, is_primary}

pub data TelegramType : Type 0 where
  unknown broadcast primary_primary primary_secondary : TelegramType

pub data TelegramState : Type 0 where
  wait_for_syn wait_for_send wait_for_request_data wait_for_request_ack : TelegramState
  wait_for_response_data wait_for_response_ack wait_for_arbitration : TelegramState
  wait_for_arbitration_2nd wait_for_command_ack unknown : TelegramState
  end_error_unexpected_syn end_error_request_nack_received : TelegramState
  end_error_response_nack_received end_error_response_no_ack : TelegramState
  end_error_request_no_ack end_arbitration end_completed end_send_failed : TelegramState

-- The enumerators' values.
abbrev pub state_value : TelegramState → ℤ
state_value wait_for_syn = pos 1
state_value wait_for_send = pos 2
state_value wait_for_request_data = pos 3
state_value wait_for_request_ack = pos 4
state_value wait_for_response_data = pos 5
state_value wait_for_response_ack = pos 6
state_value wait_for_arbitration = pos 7
state_value wait_for_arbitration_2nd = pos 8
state_value wait_for_command_ack = pos 9
state_value TelegramState.unknown = pos 0
state_value end_error_unexpected_syn = negsuc 0
state_value end_error_request_nack_received = negsuc 1
state_value end_error_response_nack_received = negsuc 2
state_value end_error_response_no_ack = negsuc 3
state_value end_error_request_no_ack = negsuc 4
state_value end_arbitration = negsuc 5
state_value end_completed = negsuc 15
state_value end_send_failed = negsuc 16

abbrev pub same_state : TelegramState → TelegramState → Bool
same_state a b = eq_int (state_value a) (state_value b)

abbrev type_value : TelegramType → ℤ
type_value TelegramType.unknown = negsuc 0
type_value broadcast = pos 0
type_value primary_primary = pos 1
type_value primary_secondary = pos 2

abbrev pub same_type : TelegramType → TelegramType → Bool
same_type a b = eq_int (type_value a) (type_value b)

abbrev pub syn : ℕ
syn = 0xAA

abbrev pub esc : ℕ
esc = 0xA9

abbrev pub ack : ℕ
ack = 0x00

abbrev pub nack : ℕ
nack = 0xFF

abbrev pub broadcast_address : ℕ
broadcast_address = 0xFE

abbrev pub max_data_length : ℕ
max_data_length = 16

abbrev pub offset_qq : ℕ
offset_qq = 0

abbrev pub offset_zz : ℕ
offset_zz = 1

abbrev pub offset_pb : ℕ
offset_pb = 2

abbrev pub offset_sb : ℕ
offset_sb = 3

abbrev pub offset_nn : ℕ
offset_nn = 4

abbrev pub offset_data : ℕ
offset_data = 5

abbrev pub request_buffer_size : ℕ
request_buffer_size = offset_data + max_data_length + 1

abbrev pub response_buffer_size : ℕ
response_buffer_size = max_data_length + 2

abbrev pub response_offset : ℕ
response_offset = 1

-- -1 as a `uint8_t`.
abbrev pub invalid_response_byte : ℕ
invalid_response_byte = 255

pub record TelegramBase : Type 0 where
  pub state : TelegramState
  pub request_buffer : List ℕ
  pub request_buffer_pos : ℕ
  pub request_rolling_crc : ℕ
  pub wait_for_escaped_char : Bool

-- The bytes that the members take: the state and the enumerations are of one byte, `bool` too.
abbrev pub sizeof_telegram_base : ℕ
sizeof_telegram_base = 1 + request_buffer_size + 1 + 1 + 1

-- The members' initialisers; the constructor of each subclass sets the state.
unfoldable pub new_base : TelegramState → TelegramBase
new_base state = record {
  state = state;
  request_buffer = esc ∷ esc ∷ replicate 20 0;
  request_buffer_pos = 0;
  request_rolling_crc = 0;
  wait_for_escaped_char = false;
}

module _ (t : TelegramBase) where
  unfoldable pub get_qq : ℕ
  get_qq = get_or t.request_buffer offset_qq 0

  unfoldable pub get_zz : ℕ
  get_zz = get_or t.request_buffer offset_zz 0

  unfoldable pub get_pb : ℕ
  get_pb = get_or t.request_buffer offset_pb 0

  unfoldable pub get_sb : ℕ
  get_sb = get_or t.request_buffer offset_sb 0

  unfoldable pub get_command : ℕ
  unfolding get_pb get_sb
  get_command = bit_or (get_pb * 2 ^ 8) get_sb

  unfoldable pub get_nn : ℕ
  get_nn = let nn = get_or t.request_buffer offset_nn 0 in if leb max_data_length nn then 0 else nn

  unfoldable pub get_type : TelegramType
  unfolding get_zz
  get_type =
      if get_zz == esc
      then TelegramType.unknown
      else if get_zz == broadcast_address
      then broadcast
      else if is_primary get_zz
      then primary_primary
      else primary_secondary

  -- An `int16_t`: -1 where there is no such byte.
  unfoldable pub get_request_byte : ℕ → ℤ
  unfolding get_nn
  get_request_byte i =
      if ltb get_nn i || leb max_data_length i
      then negsuc 0
      else pos (get_or t.request_buffer (offset_data + i) 0)

  unfoldable pub get_request_crc : ℕ
  unfolding get_nn
  get_request_crc = get_or t.request_buffer (offset_data + get_nn) 0

  unfoldable pub is_ack_expected : Bool
  unfolding get_type
  is_ack_expected = not (same_type get_type broadcast)

  unfoldable pub is_response_expected : Bool
  unfolding get_type
  is_response_expected = same_type get_type primary_secondary

  unfoldable pub is_finished : Bool
  is_finished = lt_int (state_value t.state) (state_value TelegramState.unknown)

-- `push_buffer_`: the buffer, the position and the CRC behind its three pointers.
unfoldable pub push_buffer : ℕ → List ℕ → ℕ → ℕ → ℕ → Option (List ℕ × ℕ × ℕ)
push_buffer cr buffer at crc max_pos =
    if ltb at (length buffer)
    then some (set buffer at cr, u8 (at + 1), if ltb at max_pos then crc8_calc cr crc else crc)
    else none

unfoldable pub set_state : TelegramState → TelegramBase → TelegramBase
set_state new_state t = record t { state = new_state }

unfoldable pub push_req_data : ℕ → TelegramBase → Option TelegramBase
unfolding push_buffer get_nn
push_req_data cr t = do
  (buffer, at, crc) ←
      push_buffer cr t.request_buffer t.request_buffer_pos t.request_rolling_crc
        (offset_data + get_nn t)
  some (record t { request_buffer = buffer; request_buffer_pos = at; request_rolling_crc = crc })
