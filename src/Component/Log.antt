-- ===== src/Component/Log.antt =====
-- The log lines of esphome/components/ebus/ebus_component.cpp: their formats and arguments, in order;
-- and `get_state_string` of telegram.cpp. What ESPHome makes of a format is not modelled.
use Prim.Native.String.{String}
use esphome.Prelude.{ℕ, not, ◌==◌, if◌then◌else◌, List, [], ◌∷◌, ℤ, pos, negsuc, eq_int}
use esphome.Telegram.{
  TelegramState, state_value, end_completed, same_state, syn, get_qq, get_zz, get_pb, get_sb,
}
use esphome.Telegram.Received.{Telegram}
use esphome.Item.{Floats, EbusItem}
use esphome.Component.{Queues, EbusComponent}

pub data LogArgument : Type 0 where
  number : ℕ → LogArgument
  text : String → LogArgument

pub record LogLine : Type 0 where
  pub format : String
  pub arguments : List LogArgument

-- A line without arguments, and one with a number.
abbrev plain : String → LogLine
plain format = record { format = format; arguments = [] }

abbrev with_number : String → ℕ → LogLine
with_number format n = record { format = format; arguments = number n ∷ [] }

-- `TELEGRAM_STATE_TABLE`: the names and the values of the states.
abbrev telegram_state_table : List (String × ℤ)
telegram_state_table =
    ("waitForSyn", pos 1)
    ∷ ("waitForSend", pos 2)
    ∷ ("waitForRequestData", pos 3)
    ∷ ("waitForRequestAck", pos 4)
    ∷ ("waitForResponseData", pos 5)
    ∷ ("waitForResponseAck", pos 6)
    ∷ ("waitForArbitration", pos 7)
    ∷ ("waitForArbitration2nd", pos 8)
    ∷ ("waitForCommandAck", pos 9)
    ∷ ("unknown", pos 0)
    ∷ ("endErrorUnexpectedSyn", negsuc 0)
    ∷ ("endErrorRequestNackReceived", negsuc 1)
    ∷ ("endErrorResponseNackReceived", negsuc 2)
    ∷ ("endErrorResponseNoAck", negsuc 3)
    ∷ ("endErrorRequestNoAck", negsuc 4)
    ∷ ("endArbitration", negsuc 5)
    ∷ ("endCompleted", negsuc 15)
    ∷ ("endSendFailed", negsuc 16)
    ∷ []

-- The `switch` of `get_state_string`, whose cases are the rows of the table.
unfoldable state_case : List (String × ℤ) → ℤ → String
state_case [] value = "[INVALID STATE]"
state_case ((name, value_of_name) ∷ rest) value =
    let others = state_case rest value in if eq_int value_of_name value then name else others

unfoldable get_state_string : TelegramState → String
unfolding state_case
get_state_string state = state_case telegram_state_table (state_value state)

abbrev tag : String
tag = "ebus"

-- `EbusItem::dump_config`.
unfoldable dump_item_config : EbusItem → List LogLine
dump_item_config item =
    plain "EbusSensor"
    ∷ plain "  message:"
    ∷ record {
      format = "    send_poll: %s";
      arguments = text (if item.send_poll then "true" else "false") ∷ [];
    }
    ∷ (if item.address == syn
        then plain "    address: N/A"
        else with_number "    address: 0x%02x" item.address)
    ∷ with_number "    command: 0x%04x" item.command
    ∷ []

-- The four bytes that name a telegram in the log.
unfoldable telegram_arguments : Telegram → List LogArgument
unfolding get_qq get_zz get_pb get_sb
telegram_arguments telegram =
    number (get_qq telegram.base)
    ∷ number (get_zz telegram.base)
    ∷ number (get_pb telegram.base)
    ∷ number (get_sb telegram.base)
    ∷ []

module _ (f : Floats) (q : Queues) where
  -- `EbusComponent::dump_config`, with `update_interval_` of ESPHome's `PollingComponent`; behind the
  -- `%` of its line stands `PRIu32`.
  unfoldable dump_config : (update_interval : ℕ) → EbusComponent f q → List LogLine
  dump_config update_interval c =
      plain "EbusComponent"
      ∷ (if c.primary_address == syn
          then plain "  primary_addres: N/A"
          else with_number "  primary_addres: 0x%02x" c.primary_address)
      ∷ with_number "  max_tries: %d" c.max_tries
      ∷ with_number "  max_lock_counter: %d" c.max_lock_counter
      ∷ with_number "  history_queue_size: %d" c.history_queue_size
      ∷ with_number "  command_queue_size: %d" c.command_queue_size
      ∷ with_number "  poll_interval (ms): %" update_interval
      ∷ plain "  uart:"
      ∷ with_number "    num: %d" c.uart_num
      ∷ with_number "    tx_pin: %d" c.uart_tx_pin
      ∷ with_number "    rx_pin: %d" c.uart_rx_pin
      ∷ []

  -- The log lines of `handle_message_`.
  unfoldable pub message_log : EbusComponent f q → Telegram → List LogLine
  unfolding get_state_string telegram_arguments get_qq
  message_log c telegram =
      if not (same_state telegram.state end_completed)
      then record {
        format = "Message received with invalid state: %s, QQ:%02X, ZZ:%02X, Command:%02X%02X";
        arguments = text (get_state_string telegram.state) ∷ telegram_arguments telegram;
      }
        ∷ []
      else if get_qq telegram.base == c.primary_address
      then record {
        format = "Message received successful: QQ:%02X, ZZ:%02X, Command:%02X%02X";
        arguments = telegram_arguments telegram;
      }
        ∷ []
      else []
