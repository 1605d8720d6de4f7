-- ===== src/Item.antt =====
-- The class `EbusItem` of esphome/components/ebus/ebus_component.h and ebus_component.cpp, and its
-- subclasses in sensor/, binary_sensor/ and number/. An item is given with the primary address of
-- its parent where it needs that. Floats are a parameter.
pub mod Decode
pub mod Match
use esphome.Prelude.{
  ℕ, zero, suc, ◌+◌, ◌*◌, ◌%◌, ◌^◌, bit_and, bit_or, Bool, true, false, ◌&&◌, not, ◌==◌, ltb,
  if◌then◌else◌, u8, List, [], ◌∷◌, Option, some, none, ◌>>=◌, ℤ, pos, eq_int,
}
use esphome.Elf.{to_secondary}
use esphome.Telegram.{syn, get_zz, get_command, get_request_byte}
use esphome.Telegram.Received.{Telegram, get_response_byte}
use esphome.Telegram.Command.{SendCommand, send_command}

pub record EbusItem : Type 0 where
  pub address : ℕ
  pub send_poll : Bool
  pub command : ℕ
  pub payload : List ℕ
  pub response_position : ℕ

unfoldable pub set_address : ℕ → EbusItem → EbusItem
set_address address item = record item { address = to_secondary address }

unfoldable pub set_send_poll : Bool → EbusItem → EbusItem
set_send_poll send_poll item = record item { send_poll = send_poll }

unfoldable pub set_command : ℕ → EbusItem → EbusItem
set_command command item = record item { command = command }

unfoldable pub set_payload : List ℕ → EbusItem → EbusItem
set_payload payload item = record item { payload = payload }

unfoldable pub set_response_read_position : ℕ → EbusItem → EbusItem
set_response_read_position position item = record item { response_position = position }

-- `reply`: the identification, whatever the telegram asks.
unfoldable pub reply : Telegram → List ℕ
reply telegram = 0xe3 ∷ b'E' ∷ b'S' ∷ b'P' ∷ b'H' ∷ b'M' ∷ 0x12 ∷ 0x34 ∷ 0x56 ∷ 0x78 ∷ []

-- The command to send, if the item is polled; the outer `none` is a write outside its buffer.
unfoldable pub prepare_command : ℕ → EbusItem → Option (Option SendCommand)
prepare_command primary_address item =
    if item.send_poll
    then (send_command primary_address item.address item.command item.payload >>= λ command.
        some (some command))
    else some none

-- The loop of `get_response_bytes`, with the rounds left, at index `i`.
unfoldable pub response_bytes_from : Telegram → ℕ → ℕ → ℕ → ℕ → ℕ
unfolding get_response_byte
response_bytes_from telegram start zero i result = result
response_bytes_from telegram start (suc left) i result =
    response_bytes_from telegram start left (i + 1)
      (bit_or result (get_response_byte telegram (u8 (start + i)) * 2 ^ (i * 8)) % 2 ^ 32)

-- `i < 4 && i < length` holds for so many rounds.
unfoldable pub get_response_bytes : Telegram → ℕ → ℕ → ℕ
unfolding response_bytes_from
get_response_bytes telegram start length =
    response_bytes_from telegram start (if ltb length 4 then length else 4) 0 0

-- The loop of `is_mine` over the payload left, at index `i`.
unfoldable pub payload_matches : Telegram → List ℕ → ℕ → Bool
unfolding get_request_byte
payload_matches telegram [] i = true
payload_matches telegram (byte ∷ rest) i =
    if not (eq_int (pos byte) (get_request_byte telegram.base i))
    then false
    else payload_matches telegram rest (i + 1)

unfoldable pub is_mine : EbusItem → Telegram → Bool
unfolding payload_matches get_zz get_command
is_mine item telegram =
    if not (item.address == syn) && not (item.address == get_zz telegram.base)
    then false
    else if not (get_command telegram.base == item.command)
    then false
    else payload_matches telegram item.payload 0

-- The type `float`, the conversion from `uint32_t`, and the division.
pub record Floats : Type 1 where
  pub Float : Type 0
  pub of_uint32 : ℕ → Float
  pub divide : Float → Float → Float

module _ (f : Floats) where
  open f use {Float, of_uint32, divide}

  pub data Published : Type 0 where
    number_state : Float → Published
    binary_state : Bool → Published

  -- An item with what its subclass adds: a divider, or a mask.
  pub data Item : Type 0 where
    ebus_sensor : EbusItem → (response_bytes : ℕ) → (response_divider : Float) → Item
    ebus_binary_sensor : EbusItem → (mask : ℕ) → Item
    ebus_number : EbusItem → Item

  abbrev pub item_of : Item → EbusItem
  item_of (ebus_sensor item response_bytes response_divider) = item
  item_of (ebus_binary_sensor item mask) = item
  item_of (ebus_number item) = item

  unfoldable pub to_float : Telegram → ℕ → ℕ → Float → Float
  unfolding get_response_bytes
  to_float telegram start length divider =
      divide (of_uint32 (get_response_bytes telegram start length)) divider

  -- `EbusSensor::process_received`: what is published.
  unfoldable pub sensor_received : EbusItem → ℕ → Float → Telegram → List Published
  unfolding to_float is_mine
  sensor_received item response_bytes response_divider telegram =
      if not (is_mine item telegram)
      then []
      else number_state (to_float telegram item.response_position response_bytes response_divider)
        ∷ []

  -- `EbusBinarySensor::process_received`. `mask_` is an `int8_t`; only its low eight bits meet
  -- those of the result.
  unfoldable pub binary_sensor_received : EbusItem → ℕ → Telegram → List Published
  unfolding get_response_bytes is_mine
  binary_sensor_received item mask telegram =
      if not (is_mine item telegram)
      then []
      else let result = u8 (get_response_bytes telegram item.response_position 1) in
        binary_state (not (bit_and result mask == 0)) ∷ []

  -- `process_received` of the item's class; a number keeps that of `EbusItem`.
  unfoldable pub process_received : Item → Telegram → List Published
  unfolding sensor_received binary_sensor_received
  process_received (ebus_sensor item response_bytes response_divider) telegram =
      sensor_received item response_bytes response_divider telegram
  process_received (ebus_binary_sensor item mask) telegram =
      binary_sensor_received item mask telegram
  process_received (ebus_number item) telegram = []
