-- ===== src/Zebus/Hardware.antt =====
-- `setup` of esphome/components/zebus/zebus.h with the queues, the UART and the start of the tasks. The
-- calls are those of the later component; what they return is a parameter.
use esphome.Prelude.{ℕ, true, if◌then◌else◌, List, [], ◌∷◌, ◌++◌, Option, some, none}
use esphome.Zebus.Types.{sizeof_telegram}
use esphome.Item.{Floats}
use esphome.Component.{Queues}
use esphome.Component.Hardware.{
  UartConfig, uart_data_8_bits, uart_parity_disable, uart_stop_bits_1, uart_hw_flowctrl_disable,
  uart_ref_tick, uart_pin_no_change, process_received_bytes, process_received_messages,
  HardwareCall, port_enter_critical, port_exit_critical, uart_param_config, uart_set_pin,
  uart_driver_install, x_task_create, Calls, esp_error_check,
}
use esphome.Zebus.Component.{Zebus, setup}

-- `use_ref_tick` names the clock.
abbrev uart_config : UartConfig
uart_config = record {
  baud_rate = 2400;
  data_bits = uart_data_8_bits;
  parity = uart_parity_disable;
  stop_bits = uart_stop_bits_1;
  flow_ctrl = uart_hw_flowctrl_disable;
  rx_flow_ctrl_thresh = 2;
  source_clk = uart_ref_tick;
}

-- `ebus_process_received_bytes` and `ebus_process_received_messages`.
abbrev pub started_tasks : List HardwareCall
started_tasks =
    x_task_create process_received_bytes 2048 10
    ∷ x_task_create process_received_messages 2560 5
    ∷ []

module _ (f : Floats) (q : Queues) where
  -- Both queues have items of the size of a `Telegram`.
  unfoldable pub setup_queues : Zebus f q → Zebus f q
  setup_queues z = record z {
    telegram_history_queue = q.create z.zebus_config.queues.history_size sizeof_telegram;
    telegram_command_queue = q.create z.zebus_config.queues.command_size sizeof_telegram;
  }

  unfoldable pub setup_uart : (HardwareCall → ℕ) → Zebus f q → Calls
  unfolding esp_error_check
  setup_uart returned z =
      let uart = z.zebus_config.uart in
      let installed =
        esp_error_check returned (uart_driver_install uart.num 256 0 0)
          (port_exit_critical ∷ [], true) in
      let wired =
        esp_error_check returned
          (uart_set_pin uart.num uart.pin_tx uart.pin_rx uart_pin_no_change uart_pin_no_change)
          installed in
      let configured = esp_error_check returned (uart_param_config uart.num uart_config) wired in
      (port_enter_critical ∷ configured.0, configured.1)

  -- The calls in order, and the object, unless the program ends. The handlers are added at the end,
  -- behind the start of the tasks. `set_update_interval` is ESPHome's.
  unfoldable pub setup_all : (HardwareCall → ℕ) → Zebus f q → List HardwareCall × Option (Zebus f q)
  unfolding setup_queues setup_uart setup
  setup_all returned z =
      let queued = setup_queues z in
      let calls = setup_uart returned queued in
      if calls.1 then (calls.0 ++ started_tasks, some (setup f q queued)) else (calls.0, none)
