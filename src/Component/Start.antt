-- ===== src/Component/Start.antt =====
-- What `setup` of the class `EbusComponent` in esphome/components/ebus/ebus_component.cpp leaves, and
-- the tasks behind it.
use esphome.Prelude.{
  ℕ, ◌≡◌, ◌≢◌, ◌==◌, Bool, true, false, not, ◌||◌, List, [], ◌∷◌, ◌++◌, Option, some, none, All,
}
use esphome.Telegram.Received.{Telegram}
use esphome.Item.{Floats}
use esphome.Component.{Queues, EbusComponent, setup_ebus}
use esphome.Component.Fifo.{IsFifo}
use esphome.Component.Delivery.{Round, Outcome, run_rounds, published_of}
use esphome.Component.Hardware.{
  Task, process_received_bytes, process_received_messages, HardwareCall, uart_param_config,
  uart_set_pin, uart_driver_install, x_task_create, x_task_create_pinned_to_core, Calls,
  setup_queues,
}

-- The tasks that calls start.
abbrev pub started : List HardwareCall → List Task
started [] = []
started (x_task_create_pinned_to_core task stack priority core ∷ rest) = task ∷ started rest
started (x_task_create task stack priority ∷ rest) = task ∷ started rest
started (_ ∷ rest) = started rest

-- Whether the result of a call is checked.
abbrev pub is_checked : HardwareCall → Bool
is_checked (uart_param_config num config) = true
is_checked (uart_set_pin num tx rx rts cts) = true
is_checked (uart_driver_install num rx tx size) = true
is_checked _ = false

module _ (returned : HardwareCall → ℕ) where
  -- No checked call has returned an error.
  abbrev pub Succeeded : HardwareCall → Type 0
  Succeeded call = (not (is_checked call) || returned call == 0) ≡ true

  -- All calls but the last have succeeded; that one is checked and has failed. No task was started.
  pub record Fails (calls : List HardwareCall) : Type 0 where
    pub before : List HardwareCall
    pub failed : HardwareCall
    pub in_order : calls ≡ before ++ failed ∷ []
    pub succeeded : All Succeeded before
    pub checked : is_checked failed ≡ true
    pub reason : returned failed ≢ 0
    pub no_task : started calls ≡ []

  Checked : Calls → Type 0
  Checked (calls, true) = All Succeeded calls × (started calls ≡ [])
  Checked (calls, false) = Fails calls

module _ (f : Floats) (q : Queues) (fifo : IsFifo q) (returned : HardwareCall → ℕ) where
  -- The rounds return, and publish or leave queued what the telegrams that are handed over say.
  pub record Serves (rounds : List Round) (ready : EbusComponent f q) : Type 0 where
    pub outcome : Outcome f q
    pub returns : run_rounds f q rounds ready ≡ some outcome
    pub in_order :
        outcome.published ++ published_of f q ready (fifo.contents outcome.component.history_queue)
        ≡ published_of f q ready outcome.handed

  -- What `setup` returns: an abort with no task started, or a component that both tasks serve.
  unfoldable pub SetsUp : List Round → List HardwareCall × Option (EbusComponent f q) → Type 0
  SetsUp rounds (calls, none) = Fails returned calls
  SetsUp rounds (calls, some ready) =
      All (Succeeded returned) calls
      × (started calls ≡ process_received_bytes ∷ process_received_messages ∷ [])
      × Serves rounds ready

  prepared : EbusComponent f q → EbusComponent f q
  prepared c = setup_ebus f q (setup_queues f q c)
