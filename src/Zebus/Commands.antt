-- ===== src/Zebus/Commands.antt =====
-- The commands of esphome/components/zebus: `SendCommand(QQ, ZZ, PB, SB, NN, data)` of telegram.cpp,
-- and `update` of zebus.h.
use esphome.Prelude.{
  ℕ, ◌+◌, ◌/◌, ◌^◌, ◌≤◌, ◌<◌, ◌≡◌, ◌≢◌, refl, sym, ◌∙◌, Bool, true, false, not, ◌||◌, ◌&&◌, ◌==◌,
  bit_and, u8, List, [], ◌∷◌, ◌++◌, length, some, ◌>>=◌, arith, All,
}
use esphome.Prelude.Bits.{holds_below, holds_below-lt}
use esphome.Elf.{crc8_from, crc8_array, crc8_calc, is_primary}
use esphome.Telegram.{TelegramState, TelegramBase, wait_for_send, esc, push_req_data}
use esphome.Telegram.Command.{SendCommand, push_all, send_command}
use esphome.Telegram.Frame.{request_of, push_req_data-request_of, length-snoc}
use esphome.Telegram.Sent.{
  request_body, request_frame, header_pushed, body_pushed, send_command-frame,
}
use esphome.Item.{Floats}
use esphome.Component.{Queues}
use esphome.Zebus.Telegram.{push_req_data as push_req_data', initial_base}
use esphome.Zebus.SendCommand.{push_data, new_command}
use esphome.Zebus.Messages.{create_read_config_command, get_byte}
use esphome.Zebus.Component.{Zebus, poll}
use esphome.Zebus.Elf.{to_slave}
use esphome.Zebus.Same.{same_crc8_calc}

-- A byte that is not an ESC.
abbrev pub IsNotEsc : ℕ → Type 0
IsNotEsc byte = byte ≢ esc

pushed_alike :
    (byte : ℕ) (t : TelegramBase)
    → IsNotEsc byte
    → t.wait_for_escaped_char ≡ false
    → push_req_data' byte t ≡ push_req_data byte t
unfolding push_req_data' push_req_data
pushed_alike byte t other open' = ground (arith, same_crc8_calc byte t.request_rolling_crc)

push_data-push_all :
    (bytes xs : List ℕ) (s : TelegramState) (crc : ℕ)
    → All IsNotEsc bytes
    → length xs + length bytes ≤ 22
    → push_data (length bytes) bytes (request_of s xs crc) ≡ push_all bytes (request_of s xs crc)
unfolding push_data push_all
push_data-push_all [] xs s crc plain room = refl
push_data-push_all (byte ∷ rest) xs s crc plain room =
    rw
      (
        pushed_alike byte (request_of s xs crc) plain.0 refl,
        push_req_data-request_of s xs crc byte (omega (arith, room)),
      )
      (push_data-push_all rest (xs ++ byte ∷ []) s _ plain.1 (omega (arith, length-snoc xs byte)))

-- The constructor as two loops and the CRC.
new_command-push_data :
    (qq zz pb sb nn : ℕ) (bytes : List ℕ)
    → new_command qq zz pb sb nn bytes ≡ (
        push_data 5 (qq ∷ zz ∷ pb ∷ sb ∷ nn ∷ []) (request_of wait_for_send [] 0) >>= λ t.
        (push_data nn bytes t >>= λ t. push_req_data' t.request_rolling_crc t) >>= λ t.
        some (record { base = t; tries_count = 0 }))
unfolding new_command push_data initial_base
new_command-push_data qq zz pb sb nn bytes = ground arith

-- A command that waits to be sent, with the bytes of its request before the CRC.
abbrev pub command_of : List ℕ → SendCommand
command_of body = record {
  base = request_of wait_for_send (body ++ crc8_array body ∷ []) (crc8_array body);
  tries_count = 0;
}

All-append : (xs ys : List ℕ) → All IsNotEsc (xs ++ ys) → All IsNotEsc xs × All IsNotEsc ys
All-append [] ys a = (tt, a)
All-append (x ∷ xs) ys a = ((a.0, (All-append xs ys a.1).0), (All-append xs ys a.1).1)

module _ (qq zz pb sb : ℕ) (bytes : List ℕ) (h : length bytes ≤ 15)
    (plain : All IsNotEsc (request_frame qq zz pb sb bytes)) where
  new_command-frame :
      new_command qq zz pb sb (length bytes) bytes
      ≡ some (command_of (request_body qq zz pb sb bytes))
  new_command-frame =
      let body = request_body qq zz pb sb bytes in
      let split = All-append body (crc8_array body ∷ []) plain in
      let (q, (z, (p, (s, (n, data'))))) = split.0 in
      rw
        (
          new_command-push_data qq zz pb sb (length bytes) bytes,
          push_data-push_all (qq ∷ zz ∷ pb ∷ sb ∷ length bytes ∷ []) [] wait_for_send 0
              (q, (z, (p, (s, (n, tt))))) (omega arith),
          header_pushed qq zz pb sb (length bytes) wait_for_send,
          push_data-push_all bytes (qq ∷ zz ∷ pb ∷ sb ∷ length bytes ∷ []) wait_for_send
              (crc8_from 0 (qq ∷ zz ∷ pb ∷ sb ∷ length bytes ∷ [])) data' (omega (arith, h)),
          body_pushed qq zz pb sb bytes wait_for_send h,
          pushed_alike (crc8_array body) (request_of wait_for_send body (crc8_array body)) split.1.0
              refl,
          push_req_data-request_of wait_for_send body (crc8_array body) (crc8_array body)
              (omega (arith, h)),
        )
        (ground arith)

-- The earlier driver's constructor builds the same command as the later one's, if it gets as many
-- data bytes as it is told, at most 15, and no byte of the request, its CRC included, is an ESC.
pub new_command_same :
    (qq zz command : ℕ) (bytes : List ℕ)
    → length bytes ≤ 15
    → All IsNotEsc (request_frame qq zz (u8 (command / 2 ^ 8)) (bit_and command 0xFF) bytes)
    → new_command qq zz (u8 (command / 2 ^ 8)) (bit_and command 0xFF) (length bytes) bytes
      ≡ send_command qq zz command bytes
new_command_same qq zz command bytes h plain =
    new_command-frame qq zz (u8 (command / 2 ^ 8)) (bit_and command 0xFF) bytes h plain
    ∙ sym (send_command-frame qq zz command bytes h)

-- The requests for the water pressure and for the room temperature, before their CRC.
abbrev pressure_request : ℕ → List ℕ
pressure_request qq = request_body qq 0x08 0xB5 0x09 (0x0D ∷ 0x02 ∷ 0x00 ∷ [])

abbrev temperature_request : ℕ → List ℕ
temperature_request qq = request_body qq 0x15 0xB5 0x09 (0x0D ∷ 0x3E ∷ 0x00 ∷ [])

abbrev is_sendable : ℕ → Bool
is_sendable qq =
    not (qq == esc)
    && (not (crc8_array (pressure_request qq) == esc)
        && not (crc8_array (temperature_request qq) == esc))

sendable_table : holds_below (λ a. not (is_primary a) || is_sendable a) 256 ≡ true
unfolding holds_below is_primary crc8_array crc8_from crc8_calc
sendable_table = refl

sendable :
    (qq : ℕ)
    → qq < 256
    → is_primary qq ≡ true
    → (qq ≢ esc)
      × (crc8_array (pressure_request qq) ≢ esc)
      × (crc8_array (temperature_request qq) ≢ esc)
sendable qq h p = ground (arith, holds_below-lt _ 256 qq sendable_table h)

-- If the configured master address is a byte and primary, `update` has two commands for the queue,
-- written into their buffers without an access outside them: the request for the water pressure to
-- the secondary address 0x08, and the one for the room temperature to 0x15, each with its CRC.
pub poll-commands :
    (f : Floats) (q : Queues) (z : Zebus f q)
    → z.zebus_config.ebus_config.master_address < 256
    → is_primary z.zebus_config.ebus_config.master_address ≡ true
    → let qq = z.zebus_config.ebus_config.master_address in
      poll f q z
      ≡ some (command_of (pressure_request qq) ∷ command_of (temperature_request qq) ∷ [])
unfolding poll create_read_config_command get_byte to_slave esphome.Zebus.Elf.is_master
    esphome.Zebus.Elf.crc8_calc crc8_array
poll-commands f q z h p =
    let qq = z.zebus_config.ebus_config.master_address in
    let apart = sendable qq h p in
    rw
      (
        new_command-frame qq 0x08 0xB5 0x09 (0x0D ∷ 0x02 ∷ 0x00 ∷ []) (omega arith) (
          apart.0,
          (
            omega arith,
            (
              omega arith,
              (
                omega arith,
                (omega arith, (omega arith, (omega arith, (omega arith, (apart.1, tt))))),
              ),
            ),
          ),
        ),
        new_command-frame qq 0x15 0xB5 0x09 (0x0D ∷ 0x3E ∷ 0x00 ∷ []) (omega arith) (
          apart.0,
          (
            omega arith,
            (
              omega arith,
              (
                omega arith,
                (omega arith, (omega arith, (omega arith, (omega arith, (apart.2, tt))))),
              ),
            ),
          ),
        ),
      )
      refl
