-- ===== src/Telegram/Command.antt =====
-- The class `SendCommand` of esphome/components/ebus/telegram.h and telegram.cpp: a request that
-- is to be sent.
use esphome.Prelude.{
  ℕ, ◌+◌, ◌/◌, ◌^◌, bit_and, Bool, u8, List, [], ◌∷◌, length, Option, some, ◌>>=◌, ℤ, pos, lt_int,
}
use esphome.Telegram.{
  TelegramState, wait_for_send, end_completed, TelegramBase, new_base, sizeof_telegram_base,
  set_state, push_req_data,
}

pub record SendCommand : Type 0 where
  pub base : TelegramBase
  pub open base use *
  pub tries_count : ℕ

abbrev pub sizeof_send_command : ℕ
sizeof_send_command = sizeof_telegram_base + 1

-- `SendCommand()`.
unfoldable pub no_command : SendCommand
unfolding new_base
no_command = record { base = new_base end_completed; tries_count = 0 }

-- The loop over `data`: one byte after the other into the request.
unfoldable pub push_all : List ℕ → TelegramBase → Option TelegramBase
push_all [] t = some t
push_all (byte ∷ rest) t = do t' ← push_req_data byte t; push_all rest t'

-- `SendCommand(qq, zz, command, data)`.
unfoldable pub send_command : ℕ → ℕ → ℕ → List ℕ → Option SendCommand
unfolding new_base push_req_data push_all
send_command qq zz command bytes = do
  t ← push_req_data qq (new_base wait_for_send)
  t ← push_req_data zz t
  t ← push_req_data (u8 (command / 2 ^ 8)) t
  t ← push_req_data (bit_and command 0xFF) t
  t ← push_req_data (u8 (length bytes)) t
  t ← push_all bytes t
  t ← push_req_data t.request_rolling_crc t
  some (record { base = t; tries_count = 0 })

unfoldable pub command_to_state : TelegramState → SendCommand → SendCommand
unfolding set_state
command_to_state new_state c = record c { base = set_state new_state c.base }

-- The answer, and the command with one more try counted. `max_tries` is an `int8_t`.
unfoldable pub can_retry : ℤ → SendCommand → Bool × SendCommand
can_retry max_tries c =
    (lt_int (pos c.tries_count) max_tries, record c { tries_count = u8 (c.tries_count + 1) })

unfoldable pub get_crc : SendCommand → ℕ
get_crc c = c.request_rolling_crc
