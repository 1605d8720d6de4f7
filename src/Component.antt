-- ===== src/Component.antt =====
-- The class `EbusComponent` of esphome/components/ebus/ebus_component.h and ebus_component.cpp. The
-- queues of FreeRTOS and the floats are parameters. A task is a function of what it reads.
pub mod Fifo
pub mod Delivery
pub mod Traffic
pub mod Overrun
pub mod Conveys
pub mod Polling
pub mod Hardware
pub mod Start
pub mod Log
use esphome.Prelude.{
  ℕ, true, false, not, ◌==◌, ltb, if◌then◌else◌, List, [], ◌∷◌, ◌++◌, length, Option, some, none,
  ◌>>=◌,
}
use esphome.Telegram.{syn, end_completed, same_state}
use esphome.Telegram.Received.{Telegram, new_telegram}
use esphome.Telegram.Command.{SendCommand, sizeof_send_command, no_command}
use esphome.Ebus.{
  Ebus, arbitration, Effect, uart_send, queue_received_telegram, dequeue_command,
  set_primary_address, set_max_tries, set_max_lock_counter, add_send_response_handler,
}
use esphome.Ebus.Process.{process_received_char}
use esphome.Item.{Floats, Published, Item, item_of, reply, prepare_command, process_received}

-- `xQueueCreate`, with the number of items and the bytes of one; these bytes of a queue; and
-- `xQueueSendToBack` and `xQueueReceive` with no wait: `none` is a full or an empty queue.
pub record Queues : Type 1 where
  pub Queue : Type 0 → Type 0
  pub create : {A : Type 0} → (size item_size : ℕ) → Queue A
  pub item_size : {A : Type 0} → Queue A → ℕ
  pub send_to_back : {A : Type 0} → A → Queue A → Option (Queue A)
  pub receive : {A : Type 0} → Queue A → Option (A × Queue A)

-- A loop over the items: the first reply that is not empty.
unfoldable pub items_reply {ℓ} : {A : Type ℓ} → List A → Telegram → List ℕ
items_reply [] telegram = []
items_reply (item ∷ rest) telegram =
    let others = items_reply rest telegram in
    if not (length (reply telegram) == 0) then reply telegram else others

-- `new Ebus` with its members' initialisers; the three settings follow in `setup_ebus_`.
unfoldable pub new_ebus : Ebus
unfolding new_telegram no_command
new_ebus = record {
  primary_address = 0;
  max_tries = 0;
  max_lock_counter = 0;
  lock_counter = 0;
  char_count_since_last_syn = 0;
  in_esc = false;
  state = arbitration;
  receiving_telegram = new_telegram;
  active_command = no_command;
  send_response_handlers = [];
  queues_received_telegrams = false;
}

module _ (f : Floats) (q : Queues) where
  open q use {Queue, item_size, send_to_back, receive}

  pub record EbusComponent : Type 0 where
    pub primary_address : ℕ
    pub max_tries : ℕ
    pub max_lock_counter : ℕ
    pub history_queue_size : ℕ
    pub command_queue_size : ℕ
    pub uart_num : ℕ
    pub uart_tx_pin : ℕ
    pub uart_rx_pin : ℕ
    pub history_queue : Queue Telegram
    pub command_queue : Queue SendCommand
    pub items : List (Item f)
    pub ebus : Ebus

  unfoldable pub add_item : Item f → EbusComponent → EbusComponent
  add_item item c = record c { items = c.items ++ item ∷ [] }

  -- The callbacks for the wire and the queues are what `perform` and `receive_byte` do.
  unfoldable pub setup_ebus : EbusComponent → EbusComponent
  unfolding new_ebus items_reply set_primary_address set_max_tries set_max_lock_counter
      add_send_response_handler
  setup_ebus c =
      let addressed = set_primary_address c.primary_address new_ebus in
      let limited = set_max_tries c.max_tries addressed in
      let locked = set_max_lock_counter c.max_lock_counter limited in
      let queued = record locked { queues_received_telegrams = true } in
      record c { ebus = add_send_response_handler (items_reply c.items) queued }

  -- The callback `dequeue_command_` writes the first item of the queue, if there is one, into a local
  -- variable of the size of a `SendCommand`. It writes all bytes of the item: `none` if these are more.
  unfoldable pub take_command : Queue SendCommand → Option (Queue SendCommand)
  take_command queue = elim (receive queue) [
    | none ↦ some queue
    | some (command, shorter) ↦
        if ltb sizeof_send_command (item_size queue) then none else some shorter
  ]

  -- What the callbacks do: the bytes for the wire are collected, a telegram goes to the history
  -- queue and is lost if that is full, and a command is taken from the command queue.
  unfoldable pub perform : List Effect → EbusComponent → Option (EbusComponent × List ℕ)
  unfolding take_command
  perform [] c = some (c, [])
  perform (uart_send bytes ∷ rest) c = perform rest c >>= λ done. some (done.0, bytes ++ done.1)
  perform (queue_received_telegram telegram ∷ rest) c = perform rest (record c {
    history_queue = elim (send_to_back telegram c.history_queue) [
      | none ↦ c.history_queue
      | some longer ↦ longer
    ];
  })
  perform (dequeue_command ∷ rest) c = take_command c.command_queue >>= λ shorter.
      perform rest (record c { command_queue = shorter })

  -- What `dequeue_command_` answers; the bytes that it writes behind the command are in `take_command`.
  unfoldable pub next_command : EbusComponent → Option (Option SendCommand)
  next_command c = elim (receive c.command_queue) [
    | none ↦ some none
    | some (command, shorter) ↦ some (some command)
  ]

  -- One round of the task `process_received_bytes` in which a byte was read, and what it sends.
  -- `none` is a write outside a telegram's buffer, or behind the local variable for a command.
  unfoldable pub receive_byte : ℕ → EbusComponent → Option (EbusComponent × List ℕ)
  unfolding perform next_command
  receive_byte received_byte c =
      process_received_char (next_command c) received_byte c.ebus >>= λ done.
      perform done.1 (record c { ebus = done.0 })

  -- The loop of `handle_message_` over the items.
  unfoldable pub publish_all : List (Item f) → Telegram → List (Published f)
  publish_all [] telegram = []
  publish_all (item ∷ rest) telegram = process_received f item telegram ++ publish_all rest telegram

  -- `handle_message_`, without its log lines.
  unfoldable pub handle_message : EbusComponent → Telegram → List (Published f)
  unfolding publish_all
  handle_message c telegram =
      if not (same_state telegram.state end_completed) then [] else publish_all c.items telegram

  -- One round of the task `process_received_messages`.
  unfoldable pub receive_message : EbusComponent → EbusComponent × List (Published f)
  unfolding handle_message
  receive_message c = elim (receive c.history_queue) [
    | none ↦ (c, [])
    | some (telegram, shorter) ↦ (record c { history_queue = shorter }, handle_message c telegram)
  ]

  -- The loop of `update` over the items: the commands for the queue, in order. Each of them waits
  -- there until there is room.
  unfoldable pub poll_all : ℕ → List (Item f) → Option (List SendCommand)
  unfolding prepare_command
  poll_all primary_address [] = some []
  poll_all primary_address (item ∷ rest) =
      let others = poll_all primary_address rest in
      prepare_command primary_address (item_of f item) >>= λ command. others >>= λ commands.
      some (elim command [ none ↦ commands | some polled ↦ polled ∷ commands ])

  unfoldable pub update : EbusComponent → Option (List SendCommand)
  unfolding poll_all
  update c = if c.primary_address == syn then some [] else poll_all c.primary_address c.items
