-- ===== src/Ebus.antt =====
-- The class `Ebus` of esphome/components/ebus/ebus.h and ebus.cpp: its members, and what it sends.
-- A call of a callback that acts on the outside is an `Effect`, in the order of the calls. The
-- response handlers are functions of the telegram; what `dequeue_command_` answers is an argument.
pub mod Receive
pub mod Active
pub mod Process
pub mod Safety
pub mod Says
pub mod Ranks
pub mod Settled
pub mod Bus
pub mod Hearing
pub mod Stretch
pub mod Opening
pub mod Answered
pub mod Closing
pub mod Replying
pub mod Asking
pub mod Conversation
pub mod Receiver
pub mod Wire
pub mod Reception
pub mod Response
pub mod Heard
pub mod Sending
pub mod Diagram
pub mod Arbitration
pub mod Attempts
pub mod Runs
pub mod Retries
pub mod Lock
pub mod Phases
pub mod Switched
pub mod Steps
pub mod Sends
pub mod Reaching
pub mod Completion
pub mod Failure
pub mod Losses
pub mod Replies
pub mod Queueing
pub mod Fetching
pub mod Invariant
use esphome.Prelude.{
  ℕ, zero, suc, ◌+◌, ◌-◌, ◌%◌, Bool, true, false, ◌&&◌, ◌||◌, not, ◌==◌, ltb, if◌then◌else◌, u8,
  List, [], ◌∷◌, ◌++◌, length, Option, ℤ, pos, negsuc,
}
use esphome.Elf.{crc8_calc, to_secondary}
use esphome.Telegram.{
  syn, esc, ack, nack, response_buffer_size, wait_for_request_ack, same_state, get_zz, get_pb,
  get_sb, get_nn, get_request_byte,
}
use esphome.Telegram.Received.{Telegram, is_request_valid}
use esphome.Telegram.Command.{SendCommand, get_crc}

pub data EbusState : Type 0 where
  normal arbitration : EbusState

pub record Ebus : Type 0 where
  pub primary_address : ℕ
  pub max_tries : ℕ
  pub max_lock_counter : ℕ
  pub lock_counter : ℕ
  pub char_count_since_last_syn : ℕ
  pub in_esc : Bool
  pub state : EbusState
  pub receiving_telegram : Telegram
  pub active_command : SendCommand
  pub send_response_handlers : List (Telegram → List ℕ)
  pub queues_received_telegrams : Bool  -- whether `queue_received_telegram_` is set

pub data Effect : Type 0 where
  uart_send : List ℕ → Effect
  queue_received_telegram : Telegram → Effect
  dequeue_command : Effect

unfoldable pub set_primary_address : ℕ → Ebus → Ebus
set_primary_address primary_address e = record e { primary_address = primary_address }

unfoldable pub set_max_tries : ℕ → Ebus → Ebus
set_max_tries max_tries e = record e { max_tries = max_tries }

unfoldable pub set_max_lock_counter : ℕ → Ebus → Ebus
set_max_lock_counter max_lock_counter e = record e { max_lock_counter = max_lock_counter }

unfoldable pub add_send_response_handler : (Telegram → List ℕ) → Ebus → Ebus
add_send_response_handler handler e = record e {
  send_response_handlers = e.send_response_handlers ++ handler ∷ [];
}

-- The bytes that `uart_send_char_` puts into its buffer: `cr`, escaped if `escaping` is set.
unfoldable pub wire_bytes : ℕ → Bool → List ℕ
wire_bytes cr escaping =
    if escaping && cr == esc
    then esc ∷ 0x00 ∷ []
    else if escaping && cr == syn
    then esc ∷ 0x01 ∷ []
    else cr ∷ []

-- The CRC of the buffer's one or two bytes.
unfoldable pub buffer_crc : List ℕ → ℕ → ℕ
buffer_crc [] crc = crc
buffer_crc (byte ∷ rest) crc = buffer_crc rest (crc8_calc byte crc)

-- The private `uart_send_char_` with four arguments: its result, and what it sends.
unfoldable pub uart_send_char_crc : ℕ → Bool → Bool → ℕ → ℕ × Effect
unfolding wire_bytes buffer_crc
uart_send_char_crc cr escaping run_crc crc_init =
    let buffer = wire_bytes cr escaping in
    (if not run_crc then 0 else buffer_crc buffer crc_init, uart_send buffer)

-- The `uart_send_char_` with two arguments, and with `esc` at its default.
unfoldable pub uart_send_char_as : ℕ → Bool → Effect
unfolding uart_send_char_crc
uart_send_char_as cr escaping = (uart_send_char_crc cr escaping false 0).1

unfoldable pub uart_send_char : ℕ → Effect
unfolding uart_send_char_as
uart_send_char cr = uart_send_char_as cr true

-- The conversion of an `int16_t` to `uint8_t`.
abbrev pub int16_to_u8 : ℤ → ℕ
int16_to_u8 (pos n) = u8 n
int16_to_u8 (negsuc n) = 255 - n % 256

-- The loop over the data bytes, with the rounds left, at index `i`.
unfoldable pub send_request_bytes : SendCommand → ℕ → ℕ → List Effect
unfolding uart_send_char get_request_byte
send_request_bytes command zero i = []
send_request_bytes command (suc left) i =
    uart_send_char (int16_to_u8 (get_request_byte command.base i))
    ∷ send_request_bytes command left (i + 1)

unfoldable pub uart_send_remaining_request_part : SendCommand → List Effect
unfolding uart_send_char send_request_bytes get_zz get_pb get_sb get_nn get_crc
uart_send_remaining_request_part command =
    (uart_send_char (get_zz command.base)
      ∷ uart_send_char (get_pb command.base)
      ∷ uart_send_char (get_sb command.base)
      ∷ uart_send_char (get_nn command.base)
      ∷ send_request_bytes command (get_nn command.base) 0)
    ++ uart_send_char (get_crc command) ∷ []

-- The loop over the handlers: the first reply that is not empty.
unfoldable pub find_reply : List (Telegram → List ℕ) → Telegram → List ℕ
find_reply [] telegram = []
find_reply (handler ∷ rest) telegram =
    let reply = handler telegram in
    let others = find_reply rest telegram in if not (length reply == 0) then reply else others

-- The loop over the reply, and the CRC behind it.
unfoldable pub send_reply_bytes : List ℕ → ℕ → List Effect
unfolding uart_send_char_crc uart_send_char
send_reply_bytes [] crc = uart_send_char crc ∷ []
send_reply_bytes (byte ∷ rest) crc =
    let (crc', sent) = uart_send_char_crc byte true true crc in sent ∷ send_reply_bytes rest crc'

-- The part of `handle_response_` below the search for a reply.
unfoldable pub send_reply : List ℕ → List Effect
unfolding uart_send_char send_reply_bytes
send_reply reply =
    if length reply == 0 || ltb response_buffer_size (length reply)
    then uart_send_char nack ∷ []
    else uart_send_char ack
      ∷ uart_send_char (u8 (length reply))
      ∷ send_reply_bytes reply (crc8_calc (u8 (length reply)) 0)

unfoldable pub handle_response : Ebus → Telegram → List Effect
unfolding send_reply find_reply get_zz
handle_response e telegram =
    if not (same_state telegram.state wait_for_request_ack)
      || not (get_zz telegram.base == to_secondary e.primary_address)
    then []
    else if not (is_request_valid telegram)
    then uart_send_char nack ∷ []
    else send_reply (find_reply e.send_response_handlers telegram)
