-- ===== src/Component/Hardware.antt =====
-- `setup` of the class `EbusComponent` in esphome/components/ebus/ebus_component.cpp, with the settings
-- and the calls of the UART driver and of FreeRTOS. What a call returns is a parameter.
use esphome.Prelude.{
  ℕ, Bool, true, false, ◌==◌, if◌then◌else◌, List, [], ◌∷◌, ◌++◌, Option, some, none,
}
use esphome.Telegram.Received.{sizeof_telegram}
use esphome.Item.{Floats}
use esphome.Component.{Queues, EbusComponent, setup_ebus}

-- The constants of the UART driver that the settings name.
pub data UartConstant : Type 0 where
  uart_data_8_bits uart_parity_disable uart_stop_bits_1 uart_hw_flowctrl_disable : UartConstant
  uart_sclk_apb uart_ref_tick uart_pin_no_change : UartConstant

pub record UartConfig : Type 0 where
  pub baud_rate : ℕ
  pub data_bits : UartConstant
  pub parity : UartConstant
  pub stop_bits : UartConstant
  pub flow_ctrl : UartConstant
  pub rx_flow_ctrl_thresh : ℕ
  pub source_clk : UartConstant

pub data Task : Type 0 where
  process_received_bytes process_received_messages : Task

-- The calls, with their arguments. The functions of the UART driver take the port first.
pub data HardwareCall : Type 0 where
  port_enter_critical port_exit_critical : HardwareCall
  uart_param_config : ℕ → UartConfig → HardwareCall
  uart_set_pin : ℕ → (tx rx : ℕ) → (rts cts : UartConstant) → HardwareCall
  uart_driver_install : ℕ → (rx_buffer_size tx_buffer_size queue_size : ℕ) → HardwareCall
  x_task_create_pinned_to_core : Task → (stack_depth priority core : ℕ) → HardwareCall
  x_task_create : Task → (stack_depth priority : ℕ) → HardwareCall

-- Calls that were made, and whether the program goes on behind them.
abbrev pub Calls : Type 0
Calls = List HardwareCall × Bool

-- `ESP_ERROR_CHECK`: the program ends if the call returns anything but `ESP_OK`, which is 0.
unfoldable pub esp_error_check : (HardwareCall → ℕ) → HardwareCall → Calls → Calls
esp_error_check returned call behind =
    if returned call == 0 then (call ∷ behind.0, behind.1) else (call ∷ [], false)

abbrev pub uart_config : UartConfig
uart_config = record {
  baud_rate = 2400;
  data_bits = uart_data_8_bits;
  parity = uart_parity_disable;
  stop_bits = uart_stop_bits_1;
  flow_ctrl = uart_hw_flowctrl_disable;
  rx_flow_ctrl_thresh = 2;
  source_clk = uart_sclk_apb;
}

-- The calls of `setup_tasks_`.
abbrev pub setup_tasks : List HardwareCall
setup_tasks =
    x_task_create_pinned_to_core process_received_bytes 2048 20 1
    ∷ x_task_create process_received_messages 2560 5
    ∷ []

module _ (f : Floats) (q : Queues) where
  unfoldable pub set_primary_address : ℕ → EbusComponent f q → EbusComponent f q
  set_primary_address primary_address c = record c { primary_address = primary_address }

  unfoldable pub set_max_tries : ℕ → EbusComponent f q → EbusComponent f q
  set_max_tries max_tries c = record c { max_tries = max_tries }

  unfoldable pub set_max_lock_counter : ℕ → EbusComponent f q → EbusComponent f q
  set_max_lock_counter max_lock_counter c = record c { max_lock_counter = max_lock_counter }

  unfoldable pub set_uart_num : ℕ → EbusComponent f q → EbusComponent f q
  set_uart_num uart_num c = record c { uart_num = uart_num }

  unfoldable pub set_uart_tx_pin : ℕ → EbusComponent f q → EbusComponent f q
  set_uart_tx_pin uart_tx_pin c = record c { uart_tx_pin = uart_tx_pin }

  unfoldable pub set_uart_rx_pin : ℕ → EbusComponent f q → EbusComponent f q
  set_uart_rx_pin uart_rx_pin c = record c { uart_rx_pin = uart_rx_pin }

  unfoldable pub set_history_queue_size : ℕ → EbusComponent f q → EbusComponent f q
  set_history_queue_size history_queue_size c = record c { history_queue_size = history_queue_size }

  unfoldable pub set_command_queue_size : ℕ → EbusComponent f q → EbusComponent f q
  set_command_queue_size command_queue_size c = record c { command_queue_size = command_queue_size }

  -- Both queues have items of the size of a `Telegram`.
  unfoldable pub setup_queues : EbusComponent f q → EbusComponent f q
  setup_queues c = record c {
    history_queue = q.create c.history_queue_size sizeof_telegram;
    command_queue = q.create c.command_queue_size sizeof_telegram;
  }

  -- The critical section is left only if all three calls succeed.
  unfoldable pub setup_uart : (HardwareCall → ℕ) → EbusComponent f q → Calls
  unfolding esp_error_check
  setup_uart returned c =
      let installed =
        esp_error_check returned (uart_driver_install c.uart_num 256 0 0)
          (port_exit_critical ∷ [], true) in
      let wired =
        esp_error_check returned
          (uart_set_pin c.uart_num c.uart_tx_pin c.uart_rx_pin uart_pin_no_change
            uart_pin_no_change)
          installed in
      let configured = esp_error_check returned (uart_param_config c.uart_num uart_config) wired in
      (port_enter_critical ∷ configured.0, configured.1)

  -- The calls in order, and the component, unless the program ends.
  unfoldable pub setup :
      (HardwareCall → ℕ) → EbusComponent f q → List HardwareCall × Option (EbusComponent f q)
  unfolding setup_queues setup_ebus setup_uart
  setup returned c =
      let ready = setup_ebus f q (setup_queues c) in
      let calls = setup_uart returned ready in
      if calls.1 then (calls.0 ++ setup_tasks, some ready) else (calls.0, none)
