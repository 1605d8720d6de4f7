-- ===== src/Zebus/Messages.antt =====
-- esphome/components/zebus/zebus.h: the handlers for received telegrams, the identification reply and
-- the commands that read the configuration of a device. A `float` literal is the conversion of its
-- whole number.
use esphome.Prelude.{
  ℕ, zero, suc, ◌+◌, ◌*◌, ◌/◌, ◌%◌, ◌^◌, ◌-◌, bit_and, bit_or, Bool, false, not, ◌==◌, ltb,
  if◌then◌else◌, u8, List, [], ◌∷◌, ◌++◌, length, get_or, drop, Option, ℤ, pos, negsuc, eq_int,
}
use esphome.Zebus.Types.{Telegram, SendCommand}
use esphome.Item.{Floats}
use esphome.Zebus.Elf.{to_slave}
use esphome.Zebus.Telegram.{get_pb, get_sb, get_request_byte, get_response_byte}
use esphome.Zebus.SendCommand.{new_command}
use esphome.Zebus.Driver.{Handler}

abbrev pub master_heater : ℕ
master_heater = 0x03

abbrev pub master_exa : ℕ
master_exa = 0x10

abbrev pub cmd_identification : ℕ
cmd_identification = 0x0704

abbrev pub cmd_device_config : ℕ
cmd_device_config = 0xB509

abbrev pub device_config_subcommand_read : ℕ
device_config_subcommand_read = 0x0D

abbrev pub device_config_water_pressure : ℕ
device_config_water_pressure = 0x0200

abbrev pub device_config_disp_room_temp : ℕ
device_config_disp_room_temp = 0x3E00

-- The conversion of an `int16_t` to `uint16_t`.
abbrev pub int16_to_u16 : ℤ → ℕ
int16_to_u16 (pos n) = n % 2 ^ 16
int16_to_u16 (negsuc n) = 2 ^ 16 - 1 - n % 2 ^ 16

-- `BYTES_TO_WORD`, as its result is converted to `uint16_t`.
unfoldable pub bytes_to_word : ℤ → ℤ → ℕ
bytes_to_word high_byte low_byte =
    bit_or (int16_to_u16 high_byte * 2 ^ 8) (int16_to_u16 low_byte) % 2 ^ 16

-- `GET_BYTE`.
unfoldable pub get_byte : ℕ → ℕ → ℕ
get_byte cmd i = bit_and (cmd / 2 ^ (8 * i)) 0xFF

unfoldable pub command_of_telegram : Telegram → ℕ
unfolding bytes_to_word get_pb get_sb
command_of_telegram telegram =
    bytes_to_word (pos (get_pb telegram.base)) (pos (get_sb telegram.base))

-- The loop of `get_response_bytes`, with the rounds left, at index `i`.
unfoldable pub response_bytes_loop : Telegram → ℕ → ℕ → ℕ → ℕ → ℕ
response_bytes_loop telegram start zero i result = result
response_bytes_loop telegram start (suc left) i result =
    response_bytes_loop telegram start left (i + 1)
      (bit_or result (get_response_byte telegram (u8 (start + i)) * 2 ^ (i * 8)) % 2 ^ 32)

-- `i < 4 && i < length` holds for so many rounds.
unfoldable pub get_response_bytes : Telegram → ℕ → ℕ → ℕ
unfolding response_bytes_loop
get_response_bytes telegram start count =
    response_bytes_loop telegram start (if ltb count 4 then count else 4) 0 0

-- The sensors of the class.
pub data SensorName : Type 0 where
  water_pressure flow_temp return_temp storage_temp hot_water_heating disp_room_temp : SensorName

-- The request reads this element of a device's configuration.
unfoldable pub reads_config : ℕ → Telegram → Bool
unfolding command_of_telegram bytes_to_word get_request_byte
reads_config config_element telegram =
    if not (command_of_telegram telegram == cmd_device_config)
    then false
    else if not (eq_int (get_request_byte telegram.base 0) (pos device_config_subcommand_read))
    then false
    else bytes_to_word (get_request_byte telegram.base 1) (get_request_byte telegram.base 2)
      == config_element

-- `createReadConfigCommand`, with the master address of the configuration.
unfoldable pub create_read_config_command : ℕ → ℕ → ℕ → Option SendCommand
unfolding new_command get_byte to_slave
create_read_config_command master_address target config_element =
    new_command master_address (to_slave target) (get_byte cmd_device_config 1)
      (get_byte cmd_device_config 0) 3
      (device_config_subcommand_read ∷ get_byte config_element 1 ∷ get_byte config_element 0 ∷ [])

pub record Identification : Type 0 where
  pub device_name : List ℕ  -- its characters, without the null
  pub vendor_id : ℕ
  pub software_version : ℕ
  pub hardware_version : ℕ

-- The loop over five characters of the name, with the rounds left, at index `i`.
unfoldable pub name_bytes : List ℕ → ℕ → ℕ → List ℕ
name_bytes device_name zero i = []
name_bytes device_name (suc left) i =
    (if ltb i (length device_name) then get_or device_name i 0 else b'-')
    ∷ name_bytes device_name left (i + 1)

unfoldable pub identification_response : Identification → List ℕ
unfolding name_bytes get_byte
identification_response id =
    id.vendor_id
    ∷ (name_bytes id.device_name 5 0
        ++ get_byte id.software_version 1
          ∷ get_byte id.software_version 0
          ∷ get_byte id.hardware_version 1
          ∷ get_byte id.hardware_version 0
          ∷ [])

-- The response handler: `memcpy` into the buffer, and the size.
unfoldable pub identify : Identification → Handler
unfolding identification_response command_of_telegram
identify id telegram buffer =
    if not (command_of_telegram telegram == cmd_identification)
    then (0, buffer)
    else (10, identification_response id ++ drop 10 buffer)

module _ (f : Floats) where
  open f use {Float, of_uint32, divide}

  pub data SensorState : Type 0 where
    published : SensorName → Float → SensorState

  unfoldable pub to_float : Telegram → ℕ → ℕ → Float → Float
  unfolding get_response_bytes
  to_float telegram start count divider =
      divide (of_uint32 (get_response_bytes telegram start count)) divider

  -- The three handlers that `setup` adds, in this order.
  unfoldable pub water_pressure_received : Telegram → List SensorState
  unfolding to_float reads_config
  water_pressure_received telegram =
      if reads_config device_config_water_pressure telegram
      then published water_pressure (to_float telegram 0 2 (of_uint32 1000)) ∷ []
      else []

  unfoldable pub disp_room_temp_received : Telegram → List SensorState
  unfolding to_float reads_config
  disp_room_temp_received telegram =
      if reads_config device_config_disp_room_temp telegram
      then published disp_room_temp (to_float telegram 0 2 (of_uint32 16)) ∷ []
      else []

  -- `&&` takes the byte for true unless it is 0.
  unfoldable pub status_received : Telegram → List SensorState
  unfolding to_float command_of_telegram get_request_byte
  status_received telegram =
      if not (command_of_telegram telegram == 0xB511)
      then []
      else if not (eq_int (get_request_byte telegram.base 0) (pos 0x01))
      then []
      else published flow_temp (to_float telegram 0 1 (of_uint32 2))
        ∷ published return_temp (to_float telegram 1 1 (of_uint32 2))
        ∷ published storage_temp (to_float telegram 5 1 (of_uint32 2))
        ∷ published hot_water_heating
            (of_uint32 (if get_response_byte telegram 6 == 0 then 0 else 1))
        ∷ []
