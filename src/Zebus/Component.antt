-- ===== src/Zebus/Component.antt =====
-- The class `Zebus` of esphome/components/zebus/zebus.h: the driver between its queues and handlers.
-- The queues of FreeRTOS and the floats are parameters. A task is a function of what it reads.
use esphome.Prelude.{
  ℕ, true, not, ltb, if◌then◌else◌, List, [], ◌∷◌, ◌++◌, Option, some, none, ◌>>=◌,
}
use esphome.Zebus.Types.{Telegram, SendCommand, sizeof_send_command}
use esphome.Telegram.{end_completed, same_state}
use esphome.Ebus.{Effect, uart_send, queue_received_telegram, dequeue_command}
use esphome.Item.{Floats}
use esphome.Component.{Queues}
use esphome.Zebus.Driver.{Ebus, EbusConfig, new_driver, append_handler}
use esphome.Zebus.Process.{process_received_char}
use esphome.Zebus.Messages.{
  Identification, identify, SensorState, water_pressure_received, disp_room_temp_received,
  status_received, create_read_config_command, master_heater, master_exa,
  device_config_water_pressure, device_config_disp_room_temp,
}

pub record UartPins : Type 0 where
  pub num : ℕ
  pub pin_rx : ℕ
  pub pin_tx : ℕ

pub record QueueSizes : Type 0 where
  pub history_size : ℕ
  pub command_size : ℕ

pub record ZebusConfig : Type 0 where
  pub interval_ms : ℕ
  pub uart : UartPins
  pub queues : QueueSizes
  pub ebus_config : EbusConfig
  pub identification : Identification

module _ (f : Floats) (q : Queues) where
  open q use {Queue, item_size, send_to_back, receive}

  abbrev pub MessageHandler : Type 0
  MessageHandler = Telegram → List (SensorState f)

  pub record Zebus : Type 0 where
    pub zebus_config : ZebusConfig
    pub ebus : Ebus
    pub telegram_history_queue : Queue Telegram
    pub telegram_command_queue : Queue SendCommand
    pub message_handlers : List MessageHandler

  unfoldable pub add_message_handler : MessageHandler → Zebus → Zebus
  add_message_handler message_handler z = record z {
    message_handlers = z.message_handlers ++ message_handler ∷ [];
  }

  -- The callbacks for the wire and the queues are what `carry_out` and `next_dequeued` do.
  unfoldable pub setup_driver : Zebus → Zebus
  unfolding new_driver append_handler
  setup_driver z =
      let fresh = new_driver z.zebus_config.ebus_config in
      let queued = record fresh { queues_received_telegrams = true } in
      record z { ebus = append_handler (identify z.zebus_config.identification) queued }

  -- What `setup` leaves in the members but the queues, which are given; Zebus/Hardware has the whole.
  unfoldable pub setup : Zebus → Zebus
  unfolding setup_driver add_message_handler
  setup z = add_message_handler (status_received f) (
      add_message_handler (disp_room_temp_received f)
        (add_message_handler (water_pressure_received f) (setup_driver z)))

  -- The callback `dequeue_command_` writes the first item of the queue, if there is one, into a local
  -- variable of the size of a `SendCommand`. It writes all bytes of the item: `none` if these are more.
  unfoldable pub take_dequeued : Queue SendCommand → Option (Queue SendCommand)
  take_dequeued queue = elim (receive queue) [
    | none ↦ some queue
    | some (command, shorter) ↦
        if ltb sizeof_send_command (item_size queue) then none else some shorter
  ]

  -- What the callbacks do: the bytes for the wire are collected, a telegram goes to the history
  -- queue and is lost if that is full, and a command is taken from the command queue.
  unfoldable pub carry_out : List Effect → Zebus → Option (Zebus × List ℕ)
  unfolding take_dequeued
  carry_out [] z = some (z, [])
  carry_out (uart_send bytes ∷ rest) z = carry_out rest z >>= λ done. some (done.0, bytes ++ done.1)
  carry_out (queue_received_telegram telegram ∷ rest) z = carry_out rest (record z {
    telegram_history_queue = elim (send_to_back telegram z.telegram_history_queue) [
      | none ↦ z.telegram_history_queue
      | some longer ↦ longer
    ];
  })
  carry_out (dequeue_command ∷ rest) z = take_dequeued z.telegram_command_queue >>= λ shorter.
      carry_out rest (record z { telegram_command_queue = shorter })

  -- What `dequeue_command_` answers; the bytes that it writes behind the command are in
  -- `take_dequeued`.
  unfoldable pub next_dequeued : Zebus → Option (Option SendCommand)
  next_dequeued z = elim (receive z.telegram_command_queue) [
    | none ↦ some none
    | some (command, shorter) ↦ some (some command)
  ]

  -- One round of the task `ebus_process_received_bytes` in which a byte was read, and what it sends.
  -- `none` is an access outside a buffer, or behind the local variable for a command.
  unfoldable pub ebus_process_received_byte : ℕ → Zebus → Option (Zebus × List ℕ)
  unfolding carry_out next_dequeued
  ebus_process_received_byte received_byte z =
      process_received_char (next_dequeued z) received_byte z.ebus >>= λ done.
      carry_out done.1 (record z { ebus = done.0 })

  -- The loop of `handleMessage` over the handlers.
  unfoldable pub call_handlers : List MessageHandler → Telegram → List (SensorState f)
  call_handlers [] telegram = []
  call_handlers (message_handler ∷ rest) telegram =
      message_handler telegram ++ call_handlers rest telegram

  -- `handleMessage`, without its log lines.
  unfoldable pub handle_telegram : Zebus → Telegram → List (SensorState f)
  unfolding call_handlers
  handle_telegram z telegram =
      if not (same_state telegram.state end_completed)
      then []
      else call_handlers z.message_handlers telegram

  -- One round of the task `ebus_process_received_messages`.
  unfoldable pub ebus_process_received_message : Zebus → Zebus × List (SensorState f)
  unfolding handle_telegram
  ebus_process_received_message z = elim (receive z.telegram_history_queue) [
    | none ↦ (z, [])
    | some (telegram, shorter) ↦
        (record z { telegram_history_queue = shorter }, handle_telegram z telegram)
  ]

  -- `ebus_enqueue_command`: while the queue is full, it waits, which is `none`.
  unfoldable ebus_enqueue_command : SendCommand → Zebus → Option Zebus
  ebus_enqueue_command command z = send_to_back command z.telegram_command_queue >>= λ longer.
      some (record z { telegram_command_queue = longer })

  -- `update`: the commands for the queue, in order. Each waits there until there is room.
  unfoldable pub poll : Zebus → Option (List SendCommand)
  unfolding create_read_config_command
  poll z =
      let master_address = z.zebus_config.ebus_config.master_address in
      create_read_config_command master_address master_heater device_config_water_pressure
      >>= λ pressure.
          create_read_config_command master_address master_exa device_config_disp_room_temp
          >>= λ temperature. some (pressure ∷ temperature ∷ [])
