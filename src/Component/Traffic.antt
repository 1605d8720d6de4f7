-- ===== src/Component/Traffic.antt =====
-- The way of the commands in esphome/components/ebus/ebus_component.cpp: from `update`, which waits
-- until the command queue has room for each of them, to `process_received_bytes`, which fetches them.
use esphome.Prelude.{ℕ, ◌<◌, List, [], ◌∷◌, ◌++◌, Option, some, none, ◌>>=◌}
use esphome.Telegram.Command.{SendCommand}
use esphome.Item.{Floats}
use esphome.Component.{Queues, EbusComponent, receive_byte, update}

-- A byte is read; `update` is called, if it does not wait; or it tries to go on.
pub data CommandRound : Type 0 where
  byte_round : ℕ → CommandRound
  poll_round : CommandRound
  send_round : CommandRound

abbrev pub IsCommandRound : CommandRound → Type 0
IsCommandRound (byte_round byte) = byte < 256
IsCommandRound poll_round = Unit
IsCommandRound send_round = Unit

module _ (f : Floats) (q : Queues) where
  open q use {send_to_back, receive}

  -- The component behind the rounds, the commands that `update` still has to put into the queue, and
  -- those that it prepared.
  pub record Traffic : Type 0 where
    pub component : EbusComponent f q
    pub pending : List SendCommand
    pub prepared : List SendCommand

  -- One attempt to put the first pending command into the queue. What the queue copies behind the
  -- command, up to the size of its items, is not part of the model.
  unfoldable pub send_pending :
      List SendCommand → EbusComponent f q → List SendCommand × EbusComponent f q
  send_pending [] c = ([], c)
  send_pending (command ∷ rest) c = elim (send_to_back command c.command_queue) [
    | none ↦ (command ∷ rest, c)
    | some longer ↦ (rest, record c { command_queue = longer })
  ]

  -- `none` is the `none` of `receive_byte`, or a write behind a command's buffer in `update`.
  unfoldable pub run_commands :
      List CommandRound → List SendCommand → EbusComponent f q → Option Traffic
  unfolding send_pending
  run_commands [] pending c = some (record { component = c; pending = pending; prepared = [] })
  run_commands (byte_round byte ∷ rest) pending c =
      receive_byte f q byte c >>= λ done. run_commands rest pending done.0
  run_commands (poll_round ∷ rest) [] c = do
    commands ← update f q c
    later ← run_commands rest commands c
    some (record later { prepared = commands ++ later.prepared })
  run_commands (poll_round ∷ rest) (command ∷ pending) c = run_commands rest (command ∷ pending) c
  run_commands (send_round ∷ rest) pending c =
      run_commands rest (send_pending pending c).0 (send_pending pending c).1
