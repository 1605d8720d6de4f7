-- ===== src/Telegram/Sent.antt =====
-- What the constructor `SendCommand(qq, zz, command, data)` of
-- esphome/components/ebus/telegram.cpp builds.
use native.Mathlib.Decide.{dec_lt}
use esphome.Prelude.{
  ℕ, ◌+◌, ◌/◌, ◌^◌, ◌≤◌, ◌≡◌, refl, bit_and, u8, List, [], ◌∷◌, ◌++◌, length, some, none, ◌>>=◌,
  arith,
}
use esphome.Elf.{crc8_from, crc8_array}
use esphome.Telegram.{TelegramState, wait_for_send, new_base, push_req_data}
use esphome.Telegram.Command.{push_all, send_command}
use esphome.Telegram.Frame.{
  request_of, push_req_data-request_of, push_all-request_of, push_req_data-full, length-snoc,
}

-- The bytes of a request before its CRC, and the whole.
abbrev pub request_body : ℕ → ℕ → ℕ → ℕ → List ℕ → List ℕ
request_body qq zz pb sb bytes = qq ∷ zz ∷ pb ∷ sb ∷ length bytes ∷ bytes

abbrev pub request_frame : ℕ → ℕ → ℕ → ℕ → List ℕ → List ℕ
request_frame qq zz pb sb bytes =
    request_body qq zz pb sb bytes ++ crc8_array (request_body qq zz pb sb bytes) ∷ []

-- The five bytes of the header, before the data.
pub header_pushed :
    (qq zz pb sb nn : ℕ) (s : TelegramState)
    → push_all (qq ∷ zz ∷ pb ∷ sb ∷ nn ∷ []) (request_of s [] 0)
      ≡ some
          (request_of s (qq ∷ zz ∷ pb ∷ sb ∷ nn ∷ []) (crc8_from 0 (qq ∷ zz ∷ pb ∷ sb ∷ nn ∷ [])))
header_pushed qq zz pb sb nn s =
    push_all-request_of (qq ∷ zz ∷ pb ∷ sb ∷ nn ∷ []) [] s 0 (ground arith)

-- The constructor as two loops and the CRC.
send_command-push_all :
    (qq zz command : ℕ) (bytes : List ℕ)
    → send_command qq zz command bytes ≡ (
        push_all
          (qq ∷ zz ∷ u8 (command / 2 ^ 8) ∷ bit_and command 0xFF ∷ u8 (length bytes) ∷ [])
          (request_of wait_for_send [] 0)
        >>= λ t. (push_all bytes t >>= λ t. push_req_data t.request_rolling_crc t) >>= λ t.
            some (record { base = t; tries_count = 0 }))
unfolding send_command push_all new_base
send_command-push_all qq zz command bytes = ground arith

pub body_pushed :
    (qq zz pb sb : ℕ) (bytes : List ℕ) (s : TelegramState)
    → length bytes ≤ 15
    → push_all bytes (
        request_of s
          (qq ∷ zz ∷ pb ∷ sb ∷ length bytes ∷ [])
          (crc8_from 0 (qq ∷ zz ∷ pb ∷ sb ∷ length bytes ∷ [])))
      ≡ some (
          request_of s
            (request_body qq zz pb sb bytes)
            (crc8_array (request_body qq zz pb sb bytes)))
unfolding crc8_array crc8_from
body_pushed qq zz pb sb bytes s h =
    push_all-request_of bytes (qq ∷ zz ∷ pb ∷ sb ∷ length bytes ∷ []) s _ (ground arith)

-- A command with at most 15 data bytes holds its header, its length, its data and the CRC of all
-- of these, it waits to be sent, and nothing was written outside its buffer.
pub send_command-frame :
    (qq zz command : ℕ) (bytes : List ℕ)
    → length bytes ≤ 15
    → let hi = u8 (command / 2 ^ 8) in
      let lo = bit_and command 0xFF in
      send_command qq zz command bytes
      ≡ some (record {
        base =
            request_of wait_for_send
              (request_frame qq zz hi lo bytes)
              (crc8_array (request_body qq zz hi lo bytes));
        tries_count = 0;
      })
send_command-frame qq zz command bytes h =
    let hi = u8 (command / 2 ^ 8) in
    let lo = bit_and command 0xFF in
    let small : u8 (length bytes) ≡ length bytes = omega arith in
    rw
      (
        send_command-push_all qq zz command bytes,
        small,
        header_pushed qq zz hi lo (length bytes) wait_for_send,
        body_pushed qq zz hi lo bytes wait_for_send h,
        push_req_data-request_of wait_for_send (request_body qq zz hi lo bytes)
            (crc8_array (request_body qq zz hi lo bytes))
            (crc8_array (request_body qq zz hi lo bytes)) (omega arith),
      )
      (ground arith)

overflows :
    (ys xs : List ℕ) (s : TelegramState) (crc : ℕ)
    → length xs ≤ 22
    → 22 ≤ length xs + length ys
    → (push_all ys (request_of s xs crc) >>= λ t. push_req_data t.request_rolling_crc t) ≡ none
unfolding push_all
overflows [] xs s crc h over = push_req_data-full s xs crc crc (omega arith)
overflows (y ∷ ys) xs s crc h over = elim (dec_lt (length xs) 22) [
  | yes room ↦ rw (push_req_data-request_of s xs crc y room) (
      overflows ys (xs ++ y ∷ []) s _ (omega (arith, length-snoc xs y))
        (omega (arith, length-snoc xs y)))
  | no full ↦ rw (push_req_data-full s xs crc y (omega arith))
]

-- The constructor does not check the number of data bytes: with 17 or more it writes behind the
-- end of the request buffer.
pub send_command_overflow :
    (qq zz command : ℕ) (bytes : List ℕ)
    → 17 ≤ length bytes
    → send_command qq zz command bytes ≡ none
send_command_overflow qq zz command bytes h =
    rw
      (
        send_command-push_all qq zz command bytes,
        header_pushed qq zz (u8 (command / 2 ^ 8)) (bit_and command 0xFF) (u8 (length bytes))
            wait_for_send,
        overflows bytes
            (qq ∷ zz ∷ u8 (command / 2 ^ 8) ∷ bit_and command 0xFF ∷ u8 (length bytes) ∷ [])
            wait_for_send _ (ground arith) (ground arith),
      )
      refl
