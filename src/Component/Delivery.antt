-- ===== src/Component/Delivery.antt =====
-- The two tasks of the class `EbusComponent` of esphome/components/ebus/ebus_component.cpp, one round
-- after the other in any order: from the bytes to what the items publish.
use esphome.Prelude.{ℕ, suc, ◌≤◌, ◌<◌, ◌≡◌, List, [], ◌∷◌, ◌++◌, Option, some, ◌>>=◌}
use esphome.Telegram.Received.{Telegram}
use esphome.Ebus.{Ebus}
use esphome.Ebus.Process.{unescape}
use esphome.Ebus.Safety.{IsReceiving}
use esphome.Ebus.Queueing.{handed_at}
use esphome.Item.{Floats, Published}
use esphome.Component.{Queues, EbusComponent, receive_byte, receive_message, handle_message}
use esphome.Component.Fifo.{IsFifo}

-- A round of the task `process_received_bytes` with a byte, or one of `process_received_messages`.
pub data Round : Type 0 where
  byte_round : ℕ → Round
  message_round : Round

-- How many rounds read a byte.
abbrev pub bytes_read : List Round → ℕ
bytes_read [] = 0
bytes_read (byte_round byte ∷ rest) = suc (bytes_read rest)
bytes_read (message_round ∷ rest) = bytes_read rest

abbrev pub IsByteRound : Round → Type 0
IsByteRound (byte_round byte) = byte < 256
IsByteRound message_round = Unit

module _ (f : Floats) (q : Queues) where
  -- Rounds in order: the component behind them, the telegrams that the driver handed to the history
  -- queue in them, and what the items published.
  pub record Outcome : Type 0 where
    pub component : EbusComponent f q
    pub handed : List Telegram
    pub published : List (Published f)

  unfoldable pub run_rounds : List Round → EbusComponent f q → Option Outcome
  run_rounds [] c = some (record { component = c; handed = []; published = [] })
  run_rounds (byte_round byte ∷ rest) c = do
    (next, sent) ← receive_byte f q byte c
    later ← run_rounds rest next
    some (record later { handed = handed_at (unescape c.ebus.in_esc byte) c.ebus ++ later.handed })
  run_rounds (message_round ∷ rest) c = do
    later ← run_rounds rest (receive_message f q c).0
    some (record later { published = (receive_message f q c).1 ++ later.published })

  -- What the items publish of telegrams, in order.
  unfoldable pub published_of : EbusComponent f q → List Telegram → List (Published f)
  published_of c [] = []
  published_of c (t ∷ ts) = handle_message f q c t ++ published_of c ts

  module _ (fifo : IsFifo q) where
    open fifo use {contents, room}

    -- A round with a byte.
    record ReadsByte (byte : ℕ) (c : EbusComponent f q) : Type 0 where
      next : EbusComponent f q
      sent : List ℕ
      returns : receive_byte f q byte c ≡ some (next, sent)
      history :
          contents next.history_queue
          ≡ contents c.history_queue ++ handed_at (unescape c.ebus.in_esc byte) c.ebus
      left : room c.history_queue ≤ suc (room next.history_queue)
      same_items : next.items ≡ c.items
      no_command : contents next.command_queue ≡ []
      valid : IsReceiving next.ebus.receiving_telegram

    -- A round with a message, if there is one.
    record Publishes (c : EbusComponent f q) (result : EbusComponent f q × List (Published f))
        : Type 0 where
      in_order :
          result.1 ++ published_of c (contents result.0.history_queue)
          ≡ published_of c (contents c.history_queue)
      more_room : room c.history_queue ≤ room result.0.history_queue
      same_items : result.0.items ≡ c.items
      same_ebus : result.0.ebus ≡ c.ebus
      same_commands : result.0.command_queue ≡ c.command_queue

    pub record Delivers (rounds : List Round) (c : EbusComponent f q) : Type 0 where
      pub outcome : Outcome
      pub returns : run_rounds rounds c ≡ some outcome
      pub in_order :
          outcome.published ++ published_of c (contents outcome.component.history_queue)
          ≡ published_of c (contents c.history_queue ++ outcome.handed)
