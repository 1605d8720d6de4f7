-- ===== src/Ebus/Process.antt =====
-- `process_received_char` of esphome/components/ebus/ebus.cpp: the parts before and after its two
-- `switch`es, and the whole.
use esphome.Prelude.{
  ℕ, ◌+◌, ◌-◌, Bool, true, false, ◌&&◌, not, ◌==◌, ltb, if◌then◌else◌, u8, List, [], ◌∷◌, ◌++◌,
  Option, none, some, ◌>>=◌,
}
use esphome.Telegram.{wait_for_response_ack, same_state, syn, esc, ack, nack, get_qq, is_finished}
use esphome.Telegram.Received.{new_telegram, is_response_valid}
use esphome.Telegram.Command.{SendCommand}
use esphome.Ebus.{
  EbusState, normal, arbitration, Ebus, Effect, queue_received_telegram, dequeue_command,
  uart_send_char, uart_send_char_as, handle_response,
}
use esphome.Ebus.Receive.{receive_char}
use esphome.Ebus.Active.{is_normal, advance_command}

-- What the bytes ESC and the one behind it say.
pub data Unescaped : Type 0 where
  escape_begins invalid_sequence : Unescaped
  real_byte : ℕ → Unescaped

unfoldable pub unescape : Bool → ℕ → Unescaped
unescape in_esc received_byte =
    if received_byte == esc && not in_esc
    then escape_begins
    else if in_esc && received_byte == 0x00
    then real_byte esc
    else if in_esc && received_byte == 0x01
    then real_byte syn
    else if in_esc
    then invalid_sequence
    else real_byte received_byte

-- The state of the bus at a SYN.
unfoldable pub bus_state : Ebus → EbusState
bus_state e = if e.char_count_since_last_syn == 1 then arbitration else normal

-- The number of characters since the last SYN, the state of the bus and the lock.
unfoldable pub track_syn : ℕ → Ebus → Ebus
unfolding is_normal bus_state
track_syn received_byte e =
    if received_byte == syn
    then record e {
      state = bus_state e;
      char_count_since_last_syn = 0;
      lock_counter =
          if ltb 0 e.lock_counter && is_normal (bus_state e)
          then e.lock_counter - 1
          else e.lock_counter;
    }
    else record e { char_count_since_last_syn = u8 (e.char_count_since_last_syn + 1) }

-- A telegram that has ended is queued, and a new one begins.
unfoldable pub flush_telegram : Ebus → Ebus × List Effect
flush_telegram e =
    if is_finished e.receiving_telegram.base
    then (
      record e { receiving_telegram = new_telegram },
      if e.queues_received_telegrams then queue_received_telegram e.receiving_telegram ∷ [] else [],
    )
    else (e, [])

-- `dequeue` is `none` if `dequeue_command_` is not set, and otherwise what it answers: `none` for
-- false, or the command that it writes.
unfoldable pub fetch_command : Option (Option SendCommand) → Ebus → Ebus × List Effect
fetch_command none e = (e, [])
fetch_command (some none) e =
    if is_finished e.active_command.base then (e, dequeue_command ∷ []) else (e, [])
fetch_command (some (some dequeued)) e =
    if is_finished e.active_command.base
    then (record e { active_command = dequeued }, dequeue_command ∷ [])
    else (e, [])

-- The acknowledgement of a response to a command of ours.
unfoldable pub acknowledge : Ebus → List Effect
unfolding get_qq
acknowledge e =
    if same_state e.receiving_telegram.state wait_for_response_ack
      && get_qq e.receiving_telegram.base == e.primary_address
    then if is_response_valid e.receiving_telegram
      then uart_send_char ack ∷ uart_send_char_as syn false ∷ []
      else uart_send_char nack ∷ []
    else []

-- The part before the two `switch`es, without the escapes.
unfoldable pub prepare : Option (Option SendCommand) → ℕ → Ebus → Ebus × List Effect
prepare dequeue received_byte e =
    let (flushed, queued) = flush_telegram (track_syn received_byte e) in
    let (ready, fetched) = fetch_command dequeue flushed in (ready, queued ++ fetched)

-- The second `switch` and the part behind it; `before` has happened already.
unfoldable pub finish : ℕ → List Effect → Ebus → Ebus × List Effect
finish received_byte before e =
    let (next, sent) = advance_command received_byte e in
    (next, before ++ (sent ++ (acknowledge next ++ handle_response next next.receiving_telegram)))

-- All below the treatment of escapes.
unfoldable pub process_byte :
    Option (Option SendCommand) → ℕ → ℕ → Ebus → Option (Ebus × List Effect)
process_byte dequeue received_byte real e =
    let (ready, before) = prepare dequeue received_byte e in
    receive_char received_byte real ready.receiving_telegram >>= λ telegram.
    some (finish received_byte before (record ready { receiving_telegram = telegram }))

unfoldable pub process_unescaped :
    Unescaped → Option (Option SendCommand) → ℕ → Ebus → Option (Ebus × List Effect)
process_unescaped escape_begins dequeue received_byte e = some (record e { in_esc = true }, [])
process_unescaped invalid_sequence dequeue received_byte e =
    some (record e { in_esc = false; receiving_telegram = new_telegram }, [])
process_unescaped (real_byte real) dequeue received_byte e =
    process_byte dequeue received_byte real (record e { in_esc = false })

-- `none` is a write outside a telegram's buffer.
unfoldable pub process_received_char :
    Option (Option SendCommand) → ℕ → Ebus → Option (Ebus × List Effect)
unfolding process_unescaped
process_received_char dequeue received_byte e =
    process_unescaped (unescape e.in_esc received_byte) dequeue received_byte e
