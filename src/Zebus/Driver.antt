-- ===== src/Zebus/Driver.antt =====
-- The class `Ebus` of esphome/components/zebus/include/ebus.h and ebus.cpp: its members, what it sends,
-- and `handle_response`. The calls of the callbacks are the `Effect`s of the later driver.
use esphome.Prelude.{
  ℕ, zero, suc, ◌+◌, Bool, true, false, ◌&&◌, ◌||◌, not, ◌==◌, if◌then◌else◌, List, [], ◌∷◌, ◌++◌,
  replicate, Option, none, some, ◌>>=◌,
}
use esphome.Zebus.Types.{
  syn, esc, ack, nack, response_buffer_size, Telegram, SendCommand, EbusState,
}
use esphome.Telegram.{wait_for_request_ack, same_state}
use esphome.Ebus.{arbitration, Effect, uart_send, int16_to_u8}
use esphome.Zebus.Elf.{crc8_calc, to_slave}
use esphome.Zebus.Telegram.{
  get_zz, get_pb, get_sb, get_nn, get_request_byte, is_request_valid, initial_telegram,
}
use esphome.Zebus.SendCommand.{get_crc, idle_command}

-- A response handler gets the telegram and a buffer; it returns a length, and the buffer that it
-- leaves.
abbrev pub Handler : Type 0
Handler = Telegram → List ℕ → ℕ × List ℕ

pub record EbusConfig : Type 0 where
  pub master_address : ℕ
  pub max_tries : ℕ
  pub max_lock_counter : ℕ

pub record Ebus : Type 0 where
  pub master_address : ℕ
  pub max_tries : ℕ
  pub max_lock_counter : ℕ
  pub lock_counter : ℕ
  pub char_count_since_last_syn : ℕ
  pub state : EbusState
  pub receiving_telegram : Telegram
  pub active_command : SendCommand
  pub send_response_handlers : List Handler
  pub queues_received_telegrams : Bool  -- whether `queue_received_telegram_` is set

-- `Ebus(config)`.
unfoldable pub new_driver : EbusConfig → Ebus
unfolding initial_telegram idle_command
new_driver config = record {
  master_address = config.master_address;
  max_tries = config.max_tries;
  max_lock_counter = config.max_lock_counter;
  lock_counter = 0;
  char_count_since_last_syn = 0;
  state = arbitration;
  receiving_telegram = initial_telegram;
  active_command = idle_command;
  send_response_handlers = [];
  queues_received_telegrams = false;
}

unfoldable pub append_handler : Handler → Ebus → Ebus
append_handler handler e = record e {
  send_response_handlers = e.send_response_handlers ++ handler ∷ [];
}

-- The bytes that `uart_send_char` puts into its buffer: `cr`, escaped if `escaping` is set.
unfoldable pub sent_bytes : ℕ → Bool → List ℕ
sent_bytes cr escaping =
    if escaping && cr == esc
    then esc ∷ 0x00 ∷ []
    else if escaping && cr == syn
    then esc ∷ 0x01 ∷ []
    else cr ∷ []

-- The CRC of the buffer's one or two bytes.
unfoldable pub sent_crc : List ℕ → ℕ → ℕ
sent_crc [] crc = crc
sent_crc (byte ∷ rest) crc = sent_crc rest (crc8_calc byte crc)

-- The `uart_send_char` with four arguments: its result, and what it sends.
unfoldable pub send_char_crc : ℕ → Bool → Bool → ℕ → ℕ × Effect
unfolding sent_bytes sent_crc
send_char_crc cr escaping run_crc crc_init =
    let buffer = sent_bytes cr escaping in
    (if not run_crc then 0 else sent_crc buffer crc_init, uart_send buffer)

-- The `uart_send_char` with two arguments, and with `esc` at its default.
unfoldable pub send_char_as : ℕ → Bool → Effect
unfolding send_char_crc
send_char_as cr escaping = (send_char_crc cr escaping false 0).1

unfoldable pub send_char : ℕ → Effect
unfolding send_char_as
send_char cr = send_char_as cr true

-- The loop over the data bytes, with the rounds left, at index `i`.
unfoldable pub send_data_bytes : SendCommand → ℕ → ℕ → List Effect
unfolding send_char get_request_byte
send_data_bytes command zero i = []
send_data_bytes command (suc left) i =
    send_char (int16_to_u8 (get_request_byte command.base i)) ∷ send_data_bytes command left (i + 1)

unfoldable pub send_remaining_request_part : SendCommand → List Effect
unfolding send_char send_data_bytes get_zz get_pb get_sb get_nn get_crc
send_remaining_request_part command =
    (send_char (get_zz command.base)
      ∷ send_char (get_pb command.base)
      ∷ send_char (get_sb command.base)
      ∷ send_char (get_nn command.base)
      ∷ send_data_bytes command (get_nn command.base) 0)
    ++ send_char (get_crc command) ∷ []

-- The loop over the handlers, which share the buffer: the first length that is not 0.
unfoldable pub ask_handlers : List Handler → Telegram → List ℕ → ℕ × List ℕ
ask_handlers [] telegram buf = (0, buf)
ask_handlers (handler ∷ rest) telegram buf =
    let answer = handler telegram buf in
    let others = ask_handlers rest telegram answer.1 in if answer.0 == 0 then others else answer

-- The loop over the reply, with the rounds left, and the CRC behind it; a read behind the end of the
-- buffer is `none`.
unfoldable pub send_buffer : ℕ → List ℕ → ℕ → Option (List Effect)
unfolding send_char_crc send_char
send_buffer zero buf crc = some (send_char crc ∷ [])
send_buffer (suc left) [] crc = none
send_buffer (suc left) (byte ∷ rest) crc =
    let (crc', sent) = send_char_crc byte true true crc in
    send_buffer left rest crc' >>= λ others. some (sent ∷ others)

-- The part of `handle_response` below the search for a reply. `len` is an `int` that holds a
-- `uint8_t`.
unfoldable pub send_answer : ℕ × List ℕ → Option (List Effect)
unfolding send_char send_buffer
send_answer (len, buf) =
    if len == 0
    then some (send_char nack ∷ [])
    else (send_buffer len buf (crc8_calc len 0) >>= λ sent.
        some (send_char ack ∷ send_char len ∷ sent))

unfoldable pub handle_response : Ebus → Telegram → Option (List Effect)
unfolding send_answer ask_handlers get_zz
handle_response e telegram =
    if not (same_state telegram.state wait_for_request_ack)
      || not (get_zz telegram.base == to_slave e.master_address)
    then some []
    else if not (is_request_valid telegram)
    then some (send_char nack ∷ [])
    else send_answer
        (ask_handlers e.send_response_handlers telegram (replicate response_buffer_size 0))
