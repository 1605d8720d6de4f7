-- ===== src/Zebus/Process.antt =====
-- `process_received_char` of esphome/components/zebus/include/ebus.cpp: the parts before and after its
-- two `switch`es, and the whole.
use esphome.Prelude.{
  ℕ, ◌+◌, ◌-◌, false, ◌&&◌, ◌==◌, ltb, if◌then◌else◌, u8, List, [], ◌∷◌, ◌++◌, Option, none, some,
  ◌>>=◌,
}
use esphome.Zebus.Types.{syn, ack, nack, SendCommand}
use esphome.Telegram.{wait_for_response_ack, same_state}
use esphome.Ebus.{normal, arbitration, Effect, queue_received_telegram, dequeue_command}
use esphome.Ebus.Active.{is_normal}
use esphome.Zebus.Telegram.{get_qq, is_finished, is_response_valid, initial_telegram}
use esphome.Zebus.Driver.{Ebus, send_char, send_char_as, handle_response}
use esphome.Zebus.Receive.{receive_byte}
use esphome.Zebus.Active.{drive_command}

-- The number of characters since the last SYN, the state of the bus and the lock.
unfoldable pub count_syn : ℕ → Ebus → Ebus
unfolding is_normal
count_syn received_byte e =
    let state' = if e.char_count_since_last_syn == 1 then arbitration else normal in
    if received_byte == syn
    then record e {
      state = state';
      char_count_since_last_syn = 0;
      lock_counter =
          if ltb 0 e.lock_counter && is_normal state' then e.lock_counter - 1 else e.lock_counter;
    }
    else record e { char_count_since_last_syn = u8 (e.char_count_since_last_syn + 1) }

-- A telegram that has ended is queued, and a new one begins.
unfoldable pub hand_over_telegram : Ebus → Ebus × List Effect
hand_over_telegram e =
    if is_finished e.receiving_telegram.base
    then (
      record e { receiving_telegram = initial_telegram },
      if e.queues_received_telegrams then queue_received_telegram e.receiving_telegram ∷ [] else [],
    )
    else (e, [])

-- `dequeue` is `none` if `dequeue_command_` is not set, and otherwise what it answers: `none` for
-- false, or the command that it writes.
unfoldable pub next_active : Option (Option SendCommand) → Ebus → Ebus × List Effect
next_active none e = (e, [])
next_active (some none) e =
    if is_finished e.active_command.base then (e, dequeue_command ∷ []) else (e, [])
next_active (some (some dequeued)) e =
    if is_finished e.active_command.base
    then (record e { active_command = dequeued }, dequeue_command ∷ [])
    else (e, [])

-- The part before the two `switch`es.
unfoldable pub before_switches : Option (Option SendCommand) → ℕ → Ebus → Ebus × List Effect
before_switches dequeue received_byte e =
    let (flushed, queued) = hand_over_telegram (count_syn received_byte e) in
    let (ready, fetched) = next_active dequeue flushed in (ready, queued ++ fetched)

-- The acknowledgement of a response to a command of ours.
unfoldable pub acknowledge_response : Ebus → List Effect
unfolding get_qq
acknowledge_response e =
    if same_state e.receiving_telegram.state wait_for_response_ack
      && get_qq e.receiving_telegram.base == e.master_address
    then if is_response_valid e.receiving_telegram
      then send_char ack ∷ send_char_as syn false ∷ []
      else send_char nack ∷ []
    else []

-- The second `switch` and the part behind it; `before` has happened already.
unfoldable pub after_reception : ℕ → List Effect → Ebus → Option (Ebus × List Effect)
after_reception received_byte before e =
    let (next, sent) = drive_command received_byte e in
    handle_response next next.receiving_telegram >>= λ answers.
    some (next, before ++ (sent ++ (acknowledge_response next ++ answers)))

-- `none` is an access outside a telegram's buffer, or outside that of a reply.
unfoldable pub process_received_char :
    Option (Option SendCommand) → ℕ → Ebus → Option (Ebus × List Effect)
process_received_char dequeue received_byte e =
    let (ready, before) = before_switches dequeue received_byte e in
    receive_byte received_byte ready.receiving_telegram >>= λ telegram.
    after_reception received_byte before (record ready { receiving_telegram = telegram })
