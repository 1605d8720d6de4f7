-- ===== src/Ebus/Response.antt =====
-- Whole responses on the wire, as `process_received_char` of esphome/components/ebus/ebus.cpp receives
-- them.
use mathlib.Core.List.{append_assoc, append-nil}
use esphome.Prelude.{
  ℕ, suc, ◌+◌, ◌≤◌, ◌<◌, ◌≡◌, refl, true, false, ◌==◌, ltb, if◌then◌else◌, List, [], ◌∷◌, ◌++◌,
  length, length-append, get_or, get_or-append, set, set-append, drop, drop-cons, length-drop,
  replicate, some, arith,
}
use esphome.Elf.{crc8_calc, crc8_from, crc8_array}
use esphome.Telegram.{TelegramState, wait_for_response_data, wait_for_response_ack, is_finished}
use esphome.Telegram.Received.{
  Telegram, to_state, push_response_data, is_response_complete, is_response_valid, get_response_nn,
  get_response_crc,
}
use esphome.Telegram.Bounds.{clip, clip-lt}
use esphome.Telegram.Frame.{request_of, length-snoc}
use esphome.Ebus.{wire_bytes}
use esphome.Ebus.Receive.{receive_char, receive_in, push_response_byte}
use esphome.Ebus.Wire.{
  receive_bytes, wire, wire-append, last_on_wire, last_on_wire-ne-syn, receive-wire_bytes,
}

abbrev fresh_response : List ℕ
fresh_response = replicate 18 0

-- The response buffer with the bytes received so far.
abbrev response_buffer_of : List ℕ → List ℕ
response_buffer_of xs = xs ++ drop (length xs) fresh_response

-- The telegram with the bytes of the request and those of the response so far.
abbrev pub answering : TelegramState → List ℕ → ℕ → List ℕ → ℕ → Telegram
answering s request request_crc xs crc = record {
  base = request_of s request request_crc;
  response_buffer = response_buffer_of xs;
  response_buffer_pos = length xs;
  response_rolling_crc = crc;
}

abbrev response_nn : List ℕ → ℕ
response_nn xs = clip (get_or xs 0 0)

response_nn-buffer : (xs : List ℕ) → clip (get_or (response_buffer_of xs) 0 0) ≡ response_nn xs
response_nn-buffer [] = refl
response_nn-buffer (x ∷ xs) = refl

response_buffer_of-set :
    (xs : List ℕ) (byte : ℕ)
    → length xs < 18
    → set (response_buffer_of xs) (length xs) byte ≡ response_buffer_of (xs ++ byte ∷ [])
response_buffer_of-set xs byte h =
    let (z, e) = drop-cons (length xs) fresh_response h in
    rw (
      e,
      set-append xs z (drop (suc (length xs)) fresh_response) byte,
      append_assoc xs (byte ∷ []),
      length-snoc xs byte,
    )

length-response_buffer_of : (xs : List ℕ) → length xs ≤ 18 → length (response_buffer_of xs) ≡ 18
length-response_buffer_of xs h = omega (
  arith,
  length-append xs (drop (length xs) fresh_response),
  length-drop (length xs) fresh_response,
)

module _ (request : List ℕ) (request_crc : ℕ) where
  abbrev at : List ℕ → ℕ → Telegram
  at xs crc = answering wait_for_response_data request request_crc xs crc

  push_response_data-answering :
      (xs : List ℕ) (crc byte : ℕ)
      → length xs < 18
      → push_response_data byte (at xs crc)
        ≡ some (
            at
              (xs ++ byte ∷ [])
              (if ltb (length xs) (1 + response_nn xs) then crc8_calc byte crc else crc))
  unfolding push_response_data get_response_nn
  push_response_data-answering xs crc byte h = ground (
    arith,
    length-response_buffer_of xs (omega arith),
    response_nn-buffer xs,
    response_buffer_of-set xs byte h,
    length-snoc xs byte,
  )

  complete_at :
      (xs : List ℕ) (crc : ℕ)
      → length xs ≤ 18
      → is_response_complete (at xs crc) ≡ (length xs == 2 + response_nn xs)
  unfolding is_response_complete get_response_nn
  complete_at xs crc h = ground (arith, response_nn-buffer xs)

  response_byte :
      (xs : List ℕ) (crc byte : ℕ)
      → length xs < 18
      → let t =
          at
            (xs ++ byte ∷ [])
            (if ltb (length xs) (1 + response_nn xs) then crc8_calc byte crc else crc) in
        receive_char (last_on_wire byte) byte (at xs crc)
        ≡ some (
            if length (xs ++ byte ∷ []) == 2 + response_nn (xs ++ byte ∷ [])
            then to_state wait_for_response_ack t
            else t)
  unfolding receive_char receive_in push_response_byte
  response_byte xs crc byte h =
      rw
        (
          last_on_wire-ne-syn byte,
          push_response_data-answering xs crc byte h,
          ← complete_at (xs ++ byte ∷ [])
              (if ltb (length xs) (1 + response_nn xs) then crc8_calc byte crc else crc)
              (omega (arith, length-snoc xs byte)),
        )
        refl

  -- The bytes behind the length byte.
  response_bytes :
      (nn : ℕ) (ys zs : List ℕ) (crc : ℕ) (rest : List ℕ)
      → length zs + length ys ≤ clip nn
      → receive_bytes (wire ys ++ rest) false (at (nn ∷ zs) crc)
        ≡ receive_bytes rest false (at (nn ∷ (zs ++ ys)) (crc8_from crc ys))
  unfolding crc8_from is_finished
  response_bytes nn [] zs crc rest h = rw (append-nil zs)
  response_bytes nn (y ∷ ys) zs crc rest h =
      rw
        (
          append_assoc (wire_bytes y true) (wire ys) rest,
          receive-wire_bytes y (at (nn ∷ zs) crc) (wire ys ++ rest) refl,
          response_byte (nn ∷ zs) crc y (omega (arith, clip-lt nn)),
          in_data,
          unfinished,
        )
        (rw (append_assoc zs (y ∷ []) ys) at (
          response_bytes nn ys (zs ++ y ∷ []) (crc8_calc y crc) rest
            (omega (arith, length-snoc zs y))))
    where
      in_data : ltb (length (nn ∷ zs)) (1 + clip nn) ≡ true
      in_data = ground arith

      unfinished : (length (nn ∷ (zs ++ y ∷ [])) == 2 + clip nn) ≡ false
      unfinished = ground (arith, length-snoc zs y)

  response_crc_byte :
      (nn : ℕ) (zs : List ℕ) (crc byte : ℕ)
      → length zs ≡ clip nn
      → receive_bytes (wire (byte ∷ [])) false (at (nn ∷ zs) crc)
        ≡ some (false, to_state wait_for_response_ack (at (nn ∷ (zs ++ byte ∷ [])) crc))
  unfolding is_finished
  response_crc_byte nn zs crc byte h =
      rw
        (
          receive-wire_bytes byte (at (nn ∷ zs) crc) [] refl,
          response_byte (nn ∷ zs) crc byte (omega (arith, clip-lt nn)),
          behind_data,
          finished,
        )
        refl
    where
      behind_data : ltb (length (nn ∷ zs)) (1 + clip nn) ≡ false
      behind_data = ground arith

      finished : (length (nn ∷ (zs ++ byte ∷ [])) == 2 + clip nn) ≡ true
      finished = ground (arith, length-snoc zs byte)

  length_byte :
      (nn : ℕ) (rest : List ℕ)
      → receive_bytes (wire_bytes nn true ++ rest) false (at [] 0)
        ≡ receive_bytes rest false (at (nn ∷ []) (crc8_from 0 (nn ∷ [])))
  unfolding is_finished crc8_from
  length_byte nn rest =
      rw
        (receive-wire_bytes nn (at [] 0) rest refl, response_byte [] 0 nn (omega arith), unfinished)
        refl
    where
      unfinished : (1 == 2 + clip nn) ≡ false
      unfinished = ground arith

-- After an acknowledged request, the bytes of a response with at most 15 data bytes, escaped as on
-- the wire, and one byte for the CRC, leave a telegram with these bytes that waits for the
-- acknowledgement of the response, with the CRC of all of them but the last.
pub receive_bytes-response :
    (request : List ℕ) (request_crc crc : ℕ) (bytes : List ℕ)
    → length bytes ≤ 15
    → receive_bytes
        (wire (length bytes ∷ (bytes ++ crc ∷ [])))
        false
        (answering wait_for_response_data request request_crc [] 0)
      ≡ some (
        false,
        answering wait_for_response_ack request request_crc
            (length bytes ∷ (bytes ++ crc ∷ []))
            (crc8_array (length bytes ∷ bytes)),
      )
unfolding crc8_array crc8_from to_state
receive_bytes-response request request_crc crc bytes h =
    rw
      (
        wire-append bytes (crc ∷ []),
        length_byte request request_crc (length bytes) (wire bytes ++ wire (crc ∷ [])),
        response_bytes request request_crc (length bytes) bytes [] (crc8_from 0 (length bytes ∷ []))
            (wire (crc ∷ [])) (ground arith),
        response_crc_byte request request_crc (length bytes) bytes
            (crc8_from 0 (length bytes ∷ bytes)) crc (ground arith),
      )
      refl

-- A telegram that waits for the acknowledgement of a response with at most 15 data bytes has a valid
-- response exactly if the last byte received is the CRC of the length and the data, given that the
-- rolling CRC is that.
pub is_response_valid-answering :
    (request : List ℕ) (request_crc crc : ℕ) (bytes : List ℕ)
    → length bytes ≤ 15
    → is_response_valid (
        answering wait_for_response_ack request request_crc
          (length bytes ∷ (bytes ++ crc ∷ []))
          (crc8_array (length bytes ∷ bytes)))
      ≡ (crc == crc8_array (length bytes ∷ bytes))
unfolding is_response_valid is_response_complete get_response_crc get_response_nn
is_response_valid-answering request request_crc crc bytes h = ground (
  arith,
  length-append bytes (crc ∷ []),
  append_assoc bytes (crc ∷ []) tail,
  get_or-append bytes crc tail 0,
)
  where
    tail : List ℕ
    tail = drop (length (length bytes ∷ (bytes ++ crc ∷ []))) fresh_response
