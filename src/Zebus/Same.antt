-- ===== src/Zebus/Same.antt =====
-- What the two drivers' classes `Elf`, `Telegram` and `SendCommand` have in common.
use esphome.Prelude.{ℕ, zero, suc, ◌≡◌, ◌≢◌, refl, false, List, [], ◌∷◌, arith}
use esphome.Elf.{
  crc8_calc, crc8_rounds, crc8_round, crc8_from, crc8_array, is_primary, to_secondary,
}
use esphome.Telegram.{TelegramBase, esc, push_req_data, is_ack_expected, is_response_expected}
use esphome.Telegram.Received.{
  Telegram, push_request, push_response_data, is_request_complete, is_request_valid,
  is_response_complete, is_response_valid,
}
use esphome.Zebus.Elf.{
  crc8_calc as crc8_calc', crc8_loop, crc8_step, crc8_array as crc8_array', crc8_array_loop,
  is_master, to_slave,
}
use esphome.Zebus.Telegram.{
  push_req_data as push_req_data', push_request_data, push_resp_data,
  is_ack_expected as is_ack_expected', is_response_expected as is_response_expected',
  is_request_complete as is_request_complete', is_request_valid as is_request_valid',
  is_response_complete as is_response_complete', is_response_valid as is_response_valid',
}

crc8_loop-rounds : (n byte crc : ℕ) → crc8_loop n byte crc ≡ crc8_rounds n byte crc
unfolding crc8_loop crc8_rounds crc8_step crc8_round
crc8_loop-rounds zero byte crc = refl
crc8_loop-rounds (suc n) byte crc = crc8_loop-rounds n _ _

pub same_crc8_calc : (byte crc : ℕ) → crc8_calc' byte crc ≡ crc8_calc byte crc
unfolding crc8_calc' crc8_calc
same_crc8_calc byte crc = crc8_loop-rounds 8 byte crc

same_crc8_from : (crc : ℕ) (bytes : List ℕ) → crc8_array_loop crc bytes ≡ crc8_from crc bytes
unfolding crc8_array_loop crc8_from
same_crc8_from crc [] = refl
same_crc8_from crc (byte ∷ rest) =
    rw (same_crc8_calc byte crc) (same_crc8_from (crc8_calc byte crc) rest)

same_is_primary : (address : ℕ) → is_master address ≡ is_primary address
unfolding is_master is_primary
same_is_primary address = refl

-- Both drivers compute the same CRC over any bytes, and give any address the same secondary address.
pub same_elf :
    (bytes : List ℕ) (address : ℕ)
    → (crc8_array' bytes ≡ crc8_array bytes) × (to_slave address ≡ to_secondary address)
unfolding crc8_array' crc8_array to_slave to_secondary
same_elf bytes address = (same_crc8_from 0 bytes, rw (same_is_primary address))

pub same_is_request_complete : (t : Telegram) → is_request_complete' t ≡ is_request_complete t
unfolding is_request_complete' is_request_complete
same_is_request_complete t = refl

pub same_is_response_complete : (t : Telegram) → is_response_complete' t ≡ is_response_complete t
unfolding is_response_complete' is_response_complete
same_is_response_complete t = refl

pub same_is_request_valid : (t : Telegram) → is_request_valid' t ≡ is_request_valid t
unfolding is_request_valid' is_request_valid
same_is_request_valid t = refl

pub same_is_response_valid : (t : Telegram) → is_response_valid' t ≡ is_response_valid t
unfolding is_response_valid' is_response_valid
same_is_response_valid t = refl

pub same_is_ack_expected : (t : TelegramBase) → is_ack_expected' t ≡ is_ack_expected t
unfolding is_ack_expected' is_ack_expected is_master is_primary
same_is_ack_expected t = refl

pub same_is_response_expected :
    (t : TelegramBase) → is_response_expected' t ≡ is_response_expected t
unfolding is_response_expected' is_response_expected is_master is_primary
same_is_response_expected t = refl

-- A byte other than ESC is stored alike.
pub same_push_request :
    (cr : ℕ) (t : Telegram)
    → cr ≢ esc
    → t.wait_for_escaped_char ≡ false
    → push_request_data cr t ≡ push_request cr t
unfolding push_request_data push_request push_req_data' push_req_data
same_push_request cr t h w = ground (arith, same_crc8_calc cr t.request_rolling_crc)

pub same_push_response :
    (cr : ℕ) (t : Telegram)
    → cr ≢ esc
    → t.wait_for_escaped_char ≡ false
    → push_resp_data cr t ≡ push_response_data cr t
unfolding push_resp_data push_response_data
same_push_response cr t h w = ground (arith, same_crc8_calc cr t.response_rolling_crc)
