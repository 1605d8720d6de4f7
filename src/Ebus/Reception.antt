-- ===== src/Ebus/Reception.antt =====
-- Whole requests as `process_received_char` receives them, byte after byte from the wire.
use mathlib.Core.List.{append_assoc, append-nil}
use native.Mathlib.Decide.{dec_le}
use esphome.Prelude.{
  ℕ, ◌+◌, ◌≤◌, ◌<◌, ◌≡◌, ◌≢◌, refl, ap, ◌∙◌, ◌⊎◌, true, false, ◌==◌, if◌then◌else◌, ltb, replicate,
  List, [], ◌∷◌, ◌++◌, length, length-append, get_or-append, drop, some, arith,
}
use esphome.Elf.{crc8_calc, crc8_from, crc8_array}
use esphome.Telegram.{
  TelegramState, wait_for_arbitration, wait_for_request_data, wait_for_request_ack, end_completed,
  syn, broadcast_address, get_nn, is_ack_expected, is_finished,
}
use esphome.Telegram.Received.{
  Telegram, new_telegram, to_state, push_request, is_request_complete, is_request_valid,
}
use esphome.Telegram.Frame.{
  request_of, fresh_buffer, announced, push_req_data-request_of, get_nn-request_of,
  announced-append, length-snoc, in_crc, announced-lt,
}
use esphome.Telegram.Sent.{request_body}
use esphome.Ebus.{wire_bytes}
use esphome.Ebus.Receive.{receive_char, receive_in, push_request_byte, after_request}
use esphome.Ebus.Receiver.{receive_step, fresh_telegram}
use esphome.Ebus.Process.{unescape}
use esphome.Ebus.Safety.{is_request_complete-pos}
use esphome.Ebus.Wire.{
  IsBetween, syn-between, receive_bytes, wire, last_on_wire, last_on_wire-ne-syn,
  receive-wire_bytes, wire-append,
}

-- A telegram with nothing of a response yet.
abbrev pub telegram_of : TelegramState → List ℕ → ℕ → Telegram
telegram_of s xs crc = record {
  base = request_of s xs crc;
  response_buffer = replicate 18 0;
  response_buffer_pos = 0;
  response_rolling_crc = 0;
}

complete_at :
    (xs : List ℕ) (crc : ℕ)
    → is_request_complete (telegram_of wait_for_request_data xs crc)
      ≡ (length xs == 6 + announced xs)
complete_at xs crc =
    is_request_complete-pos (telegram_of wait_for_request_data xs crc) refl refl
    ∙ ap (λ nn. length xs == 6 + nn) (get_nn-request_of wait_for_request_data xs crc)

-- One more byte of the request.
data_byte :
    (xs : List ℕ) (crc byte : ℕ)
    → length xs < 22
    → let crc' = if ltb (length xs) (5 + announced xs) then crc8_calc byte crc else crc in
      let t = telegram_of wait_for_request_data (xs ++ byte ∷ []) crc' in
      receive_char (last_on_wire byte) byte (telegram_of wait_for_request_data xs crc)
      ≡ some (
          if length (xs ++ byte ∷ []) == 6 + announced (xs ++ byte ∷ [])
          then to_state (after_request t) t
          else t)
unfolding receive_char receive_in push_request_byte push_request
data_byte xs crc byte h =
    rw
      (
        last_on_wire-ne-syn byte,
        push_req_data-request_of wait_for_request_data xs crc byte h,
        ← complete_at (xs ++ byte ∷ [])
            (if ltb (length xs) (5 + announced xs) then crc8_calc byte crc else crc),
      )
      refl

unfinished :
    (xs : List ℕ) (y : ℕ) (ys : List ℕ)
    → length xs + length {A = ℕ} (y ∷ ys) ≤ 5 + announced (xs ++ y ∷ ys)
    → (length (xs ++ y ∷ []) == 6 + announced (xs ++ y ∷ [])) ≡ false
unfinished xs y ys h = elim (dec_le 5 (length (xs ++ y ∷ []))) [
  | yes full ↦ ground (
    arith,
    length-snoc xs y,
    append_assoc xs (y ∷ []) ys,
    announced-append (xs ++ y ∷ []) ys full,
  )
  | no short ↦ ground arith
]

data_bytes :
    (ys xs : List ℕ) (crc : ℕ) (rest : List ℕ)
    → length xs + length ys ≤ 5 + announced (xs ++ ys)
    → receive_bytes (wire ys ++ rest) false (telegram_of wait_for_request_data xs crc)
      ≡ receive_bytes rest false (telegram_of wait_for_request_data (xs ++ ys) (crc8_from crc ys))
unfolding crc8_from is_finished
data_bytes [] xs crc rest h = rw (append-nil xs)
data_bytes (y ∷ ys) xs crc rest h =
    rw
      (
        append_assoc (wire_bytes y true) (wire ys) rest,
        receive-wire_bytes y (telegram_of wait_for_request_data xs crc) (wire ys ++ rest) refl,
        data_byte xs crc y (omega (arith, announced-lt (xs ++ y ∷ ys))),
        in_crc xs y ys h,
        unfinished xs y ys h,
      )
      (rw (append_assoc xs (y ∷ []) ys) at
        (data_bytes ys (xs ++ y ∷ []) (crc8_calc y crc) rest further))
  where
    further : length (xs ++ y ∷ []) + length ys ≤ 5 + announced ((xs ++ y ∷ []) ++ ys)
    further = rw (append_assoc xs (y ∷ []) ys) (omega (arith, length-snoc xs y))

-- The byte behind the last data byte.
crc_byte :
    (xs : List ℕ) (crc byte : ℕ)
    → length xs ≡ 5 + announced xs
    → let t = telegram_of wait_for_request_data (xs ++ byte ∷ []) crc in
      receive_bytes (wire (byte ∷ [])) false (telegram_of wait_for_request_data xs crc)
      ≡ some (false, to_state (after_request t) t)
unfolding is_finished
crc_byte xs crc byte h =
    rw
      (
        receive-wire_bytes byte (telegram_of wait_for_request_data xs crc) [] refl,
        data_byte xs crc byte (omega (arith, announced-lt xs)),
        not_in_crc,
        finished,
      )
      refl
  where
    not_in_crc : ltb (length xs) (5 + announced xs) ≡ false
    not_in_crc = ground arith

    finished : (length (xs ++ byte ∷ []) == 6 + announced (xs ++ byte ∷ [])) ≡ true
    finished = ground (arith, length-snoc xs byte, announced-append xs (byte ∷ []) (omega arith))

push_request-telegram_of :
    (s : TelegramState) (xs : List ℕ) (crc byte : ℕ)
    → length xs < 22
    → push_request byte (telegram_of s xs crc)
      ≡ some (
          telegram_of s
            (xs ++ byte ∷ [])
            (if ltb (length xs) (5 + announced xs) then crc8_calc byte crc else crc))
unfolding push_request
push_request-telegram_of s xs crc byte h = rw (push_req_data-request_of s xs crc byte h)

pub first_byte :
    (byte : ℕ) (rest : List ℕ)
    → receive_bytes (syn ∷ (wire_bytes byte true ++ rest)) false new_telegram
      ≡ receive_bytes rest false
          (telegram_of wait_for_request_data (byte ∷ []) (crc8_from 0 (byte ∷ [])))
unfolding new_telegram is_finished receive_step fresh_telegram unescape receive_char receive_in
    crc8_from
first_byte byte rest =
    rw
      (
        receive-wire_bytes byte (telegram_of wait_for_arbitration [] 0) rest refl,
        last_on_wire-ne-syn byte,
        push_request-telegram_of wait_for_arbitration [] 0 byte (omega arith),
      )
      refl

-- The sender's address, if it needs no escape.
pub address_char :
    (byte : ℕ)
    → byte ≢ syn
    → receive_char byte byte (telegram_of wait_for_arbitration [] 0)
      ≡ some (telegram_of wait_for_request_data (byte ∷ []) (crc8_from 0 (byte ∷ [])))
unfolding receive_char receive_in crc8_from
address_char byte other =
    rw (unequal, push_request-telegram_of wait_for_arbitration [] 0 byte (omega arith)) refl
  where
    unequal : (byte == syn) ≡ false
    unequal = ground arith

after_request-telegram_of :
    (s : TelegramState) (qq zz : ℕ) (xs : List ℕ) (crc : ℕ)
    → after_request (telegram_of s (qq ∷ zz ∷ xs) crc)
      ≡ (if zz == broadcast_address then end_completed else wait_for_request_ack)
unfolding after_request is_ack_expected
after_request-telegram_of s qq zz xs crc = ground arith

-- A SYN and the bytes of a request with at most 15 data bytes, escaped as on the wire, and one byte
-- for the CRC, leave a telegram with these bytes that waits for the acknowledgement, or is complete if
-- it is a broadcast, where no telegram and no escape is open before the SYN: the next telegram has not
-- begun, or the last one has ended. Its rolling CRC is that of all bytes but the last.
pub receive_bytes-request :
    (qq zz pb sb crc : ℕ) (bytes : List ℕ) (t : Telegram)
    → IsBetween t
    → length bytes ≤ 15
    → let body = request_body qq zz pb sb bytes in
      receive_bytes (syn ∷ wire (body ++ crc ∷ [])) false t
      ≡ some (
        false,
        telegram_of
            (if zz == broadcast_address then end_completed else wait_for_request_ack)
            (body ++ crc ∷ [])
            (crc8_array body),
      )
unfolding crc8_array crc8_from to_state
receive_bytes-request qq zz pb sb crc bytes t between h =
    rw
      (
        syn-between t (wire (request_body qq zz pb sb bytes ++ crc ∷ [])) between,
        wire-append rest (crc ∷ []),
        first_byte qq (wire rest ++ wire (crc ∷ [])),
        data_bytes rest (qq ∷ []) (crc8_from 0 (qq ∷ [])) (wire (crc ∷ [])) (ground arith),
        crc_byte (qq ∷ rest) (crc8_from 0 (qq ∷ rest)) crc (ground arith),
        after_request-telegram_of wait_for_request_data qq zz
            (pb ∷ sb ∷ length bytes ∷ (bytes ++ crc ∷ [])) (crc8_from 0 (qq ∷ rest)),
      )
      refl
  where
    rest : List ℕ
    rest = zz ∷ pb ∷ sb ∷ length bytes ∷ bytes

-- A telegram with a complete request of at most 15 data bytes, whose rolling CRC is that of all bytes
-- but the last, is a valid request exactly if the last byte is that CRC.
pub is_request_valid-telegram_of :
    (qq zz pb sb crc : ℕ) (bytes : List ℕ) (s : TelegramState)
    → length bytes ≤ 15
    → (s ≡ wait_for_request_ack) ⊎ (s ≡ end_completed)
    → let body = request_body qq zz pb sb bytes in
      is_request_valid (telegram_of s (body ++ crc ∷ []) (crc8_array body))
      ≡ (crc == crc8_array body)
unfolding is_request_valid get_nn
is_request_valid-telegram_of qq zz pb sb crc bytes s h ends = ground (
  arith,
  length-append bytes (crc ∷ []),
  append_assoc bytes (crc ∷ []) tail,
  get_or-append bytes crc tail 0,
)
  where
    tail : List ℕ
    tail = drop (length (request_body qq zz pb sb bytes ++ crc ∷ [])) fresh_buffer
