-- ===== src/Zebus/Types.antt =====
-- esphome/components/zebus/include/ebus-enums.h and the constants and members of telegram.h beside it.
-- The enumerations and the members are those of the later driver under older names (master for
-- primary, slave for secondary), so the types are the same.
use esphome.Prelude.{ℕ, ◌+◌, if◌then◌else◌, List, [], ◌∷◌, ℤ, pos, negsuc, eq_int}
use Prim.Native.String.{String}
use esphome.Telegram.{
  state_value, TelegramType as Type', TelegramState as State', TelegramBase as Base',
}
use esphome.Telegram.Received.{Telegram as Received'}
use esphome.Telegram.Command.{SendCommand as Command'}
use esphome.Ebus.{EbusState as BusState'}

abbrev pub EbusState : Type 0
EbusState = BusState'

abbrev pub TelegramType : Type 0
TelegramType = Type'

abbrev pub TelegramState : Type 0
TelegramState = State'

-- `TELEGRAM_STATE_TABLE`: the names and the values of the states.
abbrev pub telegram_state_table : List (String × ℤ)
telegram_state_table =
    ("waitForSyn", pos 1)
    ∷ ("waitForSend", pos 2)
    ∷ ("waitForRequestData", pos 3)
    ∷ ("waitForRequestAck", pos 4)
    ∷ ("waitForResponseData", pos 5)
    ∷ ("waitForResponseAck", pos 6)
    ∷ ("waitForArbitration", pos 7)
    ∷ ("waitForArbitration2nd", pos 8)
    ∷ ("waitForCommandAck", pos 9)
    ∷ ("unknown", pos 0)
    ∷ ("endErrorUnexpectedSyn", negsuc 0)
    ∷ ("endErrorRequestNackReceived", negsuc 1)
    ∷ ("endErrorResponseNackReceived", negsuc 2)
    ∷ ("endErrorResponseNoAck", negsuc 3)
    ∷ ("endErrorRequestNoAck", negsuc 4)
    ∷ ("endArbitration", negsuc 5)
    ∷ ("endCompleted", negsuc 15)
    ∷ ("endSendFailed", negsuc 16)
    ∷ []

-- The `switch` of `getStateString`, whose cases are the rows of the table.
unfoldable pub case_of : List (String × ℤ) → ℤ → String
case_of [] value = "[INVALID STATE]"
case_of ((name, number) ∷ rest) value =
    let others = case_of rest value in if eq_int number value then name else others

unfoldable pub get_state_string : TelegramState → String
unfolding case_of
get_state_string state = case_of telegram_state_table (state_value state)

abbrev pub syn : ℕ
syn = 0xAA

abbrev pub esc : ℕ
esc = 0xA9

abbrev pub ack : ℕ
ack = 0x00

abbrev pub nack : ℕ
nack = 0xFF

abbrev pub broadcast_address : ℕ
broadcast_address = 0xFE

abbrev pub max_data_length : ℕ
max_data_length = 16

abbrev pub offset_qq : ℕ
offset_qq = 0

abbrev pub offset_zz : ℕ
offset_zz = 1

abbrev pub offset_pb : ℕ
offset_pb = 2

abbrev pub offset_sb : ℕ
offset_sb = 3

abbrev pub offset_nn : ℕ
offset_nn = 4

abbrev pub offset_data : ℕ
offset_data = 5

abbrev pub request_buffer_size : ℕ
request_buffer_size = offset_data + max_data_length + 1

abbrev pub response_buffer_size : ℕ
response_buffer_size = max_data_length + 2

abbrev pub response_offset : ℕ
response_offset = 1

-- -1 as a `uint8_t`.
abbrev pub invalid_response_byte : ℕ
invalid_response_byte = 255

abbrev pub TelegramBase : Type 0
TelegramBase = Base'

abbrev pub Telegram : Type 0
Telegram = Received'

abbrev pub SendCommand : Type 0
SendCommand = Command'

-- The bytes that the members take: the state and the enumerations are of one byte, `bool` too.
abbrev pub sizeof_telegram : ℕ
sizeof_telegram = 1 + request_buffer_size + 1 + 1 + 1 + response_buffer_size + 1 + 1

abbrev pub sizeof_send_command : ℕ
sizeof_send_command = 1 + request_buffer_size + 1 + 1 + 1 + 1
