-- ===== src/Telegram/Bounds.antt =====
-- The buffers of esphome/components/ebus/telegram.cpp stay within their arrays.
use esphome.Prelude.{
  ℕ, ◌+◌, ◌<◌, ◌≡◌, refl, ◌∙◌, false, ◌==◌, ltb, leb, if◌then◌else◌, u8, IsByte, List, length,
  get_or, set, All, All-set, length-set, get_or-set_self, get_or-set_ne, some, arith,
}
use esphome.Elf.{crc8_calc}
use esphome.Elf.Crc.{crc8_calc-lt}
use esphome.Telegram.{
  TelegramBase, TelegramState, new_base, push_req_data, get_nn, offset_nn, offset_data,
  response_offset,
}
use esphome.Telegram.Received.{Telegram, new_telegram, push_response_data, get_response_nn}

-- A buffer of `size` bytes with its rolling CRC.
pub record IsBuffer (size : ℕ) (buffer : List ℕ) (crc : ℕ) : Type 0 where
  pub sized : length buffer ≡ size
  pub bytes : All IsByte buffer
  pub crc_byte : crc < 256

-- The length byte of a buffer at position `i`, as `get_nn` reads it.
abbrev pub clip : ℕ → ℕ
clip nn = if leb 16 nn then 0 else nn

pub clip-lt : (nn : ℕ) → clip nn < 16
clip-lt nn = ground arith

pub get_nn-lt : (t : TelegramBase) → get_nn t < 16
unfolding get_nn
get_nn-lt t = clip-lt (get_or t.request_buffer offset_nn 0)

pub get_response_nn-lt : (t : Telegram) → get_response_nn t < 16
unfolding get_response_nn
get_response_nn-lt t = clip-lt (get_or t.response_buffer 0 0)

-- The length that a buffer announces after a byte is written at `at`.
pub nn_after :
    (buffer : List ℕ) (offset at cr : ℕ)
    → offset < length buffer
    → clip (get_or (set buffer at cr) offset 0)
      ≡ (if at == offset then clip cr else clip (get_or buffer offset 0))
nn_after buffer offset at cr h =
    ground (arith, get_or-set_self buffer offset cr 0, get_or-set_ne buffer at offset cr 0)

IsBuffer-push :
    (size : ℕ) (buffer : List ℕ) (at crc cr limit : ℕ)
    → IsBuffer size buffer crc
    → cr < 256
    → IsBuffer size (set buffer at cr) (if ltb at limit then crc8_calc cr crc else crc)
IsBuffer-push size buffer at crc cr limit b h = record {
  sized = length-set buffer at cr ∙ b.sized;
  bytes = All-set IsByte buffer at cr h b.bytes;
  crc_byte = ground (arith, crc8_calc-lt cr crc h b.crc_byte);
}

abbrev pub IsRequest : TelegramBase → Type 0
IsRequest t = IsBuffer 22 t.request_buffer t.request_rolling_crc × (t.wait_for_escaped_char ≡ false)

abbrev pub IsResponse : Telegram → Type 0
IsResponse t = IsBuffer 18 t.response_buffer t.response_rolling_crc

pub new_base-IsRequest : (s : TelegramState) → IsRequest (new_base s)
unfolding new_base
new_base-IsRequest s = ground arith

-- A byte pushed below the end of the buffer is stored, and leaves the state alone.
pub record PushesRequest (cr : ℕ) (t : TelegramBase) : Type 0 where
  pub next : TelegramBase
  pub returns : push_req_data cr t ≡ some next
  pub valid : IsRequest next
  pub same : next.state ≡ t.state
  pub further : next.request_buffer_pos ≡ t.request_buffer_pos + 1
  pub announced : get_nn next ≡ (if t.request_buffer_pos == 4 then clip cr else get_nn t)

pub push_req_data-PushesRequest :
    (cr : ℕ) (t : TelegramBase)
    → cr < 256
    → IsRequest t
    → t.request_buffer_pos < 22
    → PushesRequest cr t
unfolding push_req_data
push_req_data-PushesRequest cr t h r below = record {
  next = record t {
    request_buffer = set t.request_buffer at cr;
    request_buffer_pos = u8 (at + 1);
    request_rolling_crc =
        if ltb at (offset_data + get_nn t)
        then crc8_calc cr t.request_rolling_crc
        else t.request_rolling_crc;
  };
  returns = ground (arith, r.0.sized);
  valid = (IsBuffer-push 22 t.request_buffer at t.request_rolling_crc cr _ r.0 h, r.1);
  same = refl;
  further = omega arith;
  announced = nn_after t.request_buffer 4 at cr (omega (arith, r.0.sized));
}
  where
    at : ℕ
    at = t.request_buffer_pos

pub new_telegram-IsResponse : IsResponse new_telegram
unfolding new_telegram
new_telegram-IsResponse = ground arith

-- The same for a byte of the response.
pub record PushesResponse (cr : ℕ) (t : Telegram) : Type 0 where
  pub next : Telegram
  pub returns : push_response_data cr t ≡ some next
  pub valid : IsResponse next
  pub same : next.base ≡ t.base
  pub further : next.response_buffer_pos ≡ t.response_buffer_pos + 1
  pub announced :
      get_response_nn next ≡ (if t.response_buffer_pos == 0 then clip cr else get_response_nn t)

pub push_response_data-PushesResponse :
    (cr : ℕ) (t : Telegram)
    → cr < 256
    → IsResponse t
    → t.response_buffer_pos < 18
    → PushesResponse cr t
unfolding push_response_data
push_response_data-PushesResponse cr t h r below = record {
  next = record t {
    response_buffer = set t.response_buffer at cr;
    response_buffer_pos = u8 (at + 1);
    response_rolling_crc =
        if ltb at (response_offset + get_response_nn t)
        then crc8_calc cr t.response_rolling_crc
        else t.response_rolling_crc;
  };
  returns = ground (arith, r.sized);
  valid = IsBuffer-push 18 t.response_buffer at t.response_rolling_crc cr _ r h;
  same = refl;
  further = omega arith;
  announced = nn_after t.response_buffer 0 at cr (omega (arith, r.sized));
}
  where
    at : ℕ
    at = t.response_buffer_pos
