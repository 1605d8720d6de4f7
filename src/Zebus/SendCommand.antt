-- ===== src/Zebus/SendCommand.antt =====
-- The class `SendCommand` of esphome/components/zebus/include/telegram.h and telegram.cpp.
use esphome.Prelude.{
  ℕ, zero, suc, ◌+◌, Bool, u8, List, [], ◌∷◌, Option, none, some, ◌>>=◌, ℤ, pos, lt_int,
}
use esphome.Zebus.Types.{TelegramBase, SendCommand}
use esphome.Telegram.{TelegramState, wait_for_send, end_completed}
use esphome.Zebus.Telegram.{initial_base, set_state, push_req_data}

-- `SendCommand()`.
unfoldable pub idle_command : SendCommand
unfolding initial_base
idle_command = record { base = initial_base end_completed; tries_count = 0 }

-- The loop over `NN` bytes of `data`; a read behind the array's end is `none`.
unfoldable pub push_data : ℕ → List ℕ → TelegramBase → Option TelegramBase
push_data zero bytes t = some t
push_data (suc left) [] t = none
push_data (suc left) (byte ∷ rest) t = do t' ← push_req_data byte t; push_data left rest t'

-- `SendCommand(QQ, ZZ, PB, SB, NN, data)`.
unfoldable pub new_command : ℕ → ℕ → ℕ → ℕ → ℕ → List ℕ → Option SendCommand
unfolding initial_base push_req_data push_data
new_command qq zz pb sb nn bytes = do
  t ← push_req_data qq (initial_base wait_for_send)
  t ← push_req_data zz t
  t ← push_req_data pb t
  t ← push_req_data sb t
  t ← push_req_data nn t
  t ← push_data nn bytes t
  t ← push_req_data t.request_rolling_crc t
  some (record { base = t; tries_count = 0 })

unfoldable pub enter_command : TelegramState → SendCommand → SendCommand
unfolding set_state
enter_command new_state c = record c { base = set_state new_state c.base }

-- The answer, and the command with one more try counted. `max_tries` is an `int8_t`.
unfoldable pub can_retry : ℤ → SendCommand → Bool × SendCommand
can_retry max_tries c =
    (lt_int (pos c.tries_count) max_tries, record c { tries_count = u8 (c.tries_count + 1) })

unfoldable pub get_crc : SendCommand → ℕ
get_crc c = c.request_rolling_crc
