-- ===== src/Ebus/Sending.antt =====
-- What goes out on the wire when a command is sent, and who can receive it.
use mathlib.Core.List.{append_assoc, map-append}
use mathlib.Core.Option.{some-injective}
use native.Mathlib.Nat.{add_comm}
use native.Mathlib.Numerals.{towards_suc}
use esphome.Prelude.{
  ℕ, zero, suc, ◌+◌, ◌%◌, ◌≤◌, ◌<◌, ◌≡◌, refl, sym, ap, subst, ◌∙◌, true, false, ◌==◌,
  if◌then◌else◌, ==_iff, List, [], ◌∷◌, ◌++◌, map, length, length-append, leb, get_or,
  get_or-append_left, drop, drop-get_or, drop-length, All, All-get_or, IsByte, some, arith, pos,
}
use esphome.Elf.{crc8_array}
use esphome.Telegram.{
  TelegramState, syn, get_qq, get_nn, get_request_byte, broadcast_address, wait_for_request_ack,
  end_completed, wait_for_send,
}
use esphome.Telegram.Received.{Telegram, is_request_valid}
use esphome.Telegram.Command.{SendCommand, send_command}
use esphome.Telegram.Frame.{request_of, fresh_buffer}
use esphome.Telegram.Sent.{request_body, request_frame, send_command-frame}
use esphome.Ebus.{
  Effect, uart_send, queue_received_telegram, dequeue_command, wire_bytes, uart_send_char,
  send_request_bytes, uart_send_remaining_request_part,
}
use esphome.Ebus.Reception.{receive_bytes-request, is_request_valid-telegram_of, telegram_of}
use esphome.Ebus.Wire.{IsBetween, wire, receive_bytes}

-- The bytes that a sequence of effects puts on the wire.
abbrev pub on_wire : List Effect → List ℕ
on_wire [] = []
on_wire (uart_send bytes ∷ rest) = bytes ++ on_wire rest
on_wire (queue_received_telegram t ∷ rest) = on_wire rest
on_wire (dequeue_command ∷ rest) = on_wire rest

pub on_wire-append : (xs ys : List Effect) → on_wire (xs ++ ys) ≡ on_wire xs ++ on_wire ys
on_wire-append [] ys = refl
on_wire-append (uart_send bytes ∷ xs) ys =
    rw (on_wire-append xs ys) (sym (append_assoc bytes (on_wire xs) (on_wire ys)))
on_wire-append (queue_received_telegram t ∷ xs) ys = on_wire-append xs ys
on_wire-append (dequeue_command ∷ xs) ys = on_wire-append xs ys

pub on_wire-map : (xs : List ℕ) → on_wire (map uart_send_char xs) ≡ wire xs
unfolding uart_send_char
on_wire-map [] = refl
on_wire-map (x ∷ xs) = ap (◌++◌ (wire_bytes x true)) (on_wire-map xs)

get_or-behind_header :
    (a b c d e : ℕ) (xs : List ℕ) (i : ℕ)
    → get_or (a ∷ b ∷ c ∷ d ∷ e ∷ xs) (5 + i) 0 ≡ get_or xs i 0
get_or-behind_header a b c d e xs i = rw (add_comm 5 i) (simp towards_suc)

-- The loop over the data bytes sends them in order.
send_request_bytes-map :
    (command : SendCommand) (bytes : List ℕ)
    → ((i : ℕ) → i < length bytes → get_request_byte command.base i ≡ pos (get_or bytes i 0))
    → All IsByte bytes
    → (left i : ℕ) → i + left ≡ length bytes
    → send_request_bytes command left i ≡ map uart_send_char (drop i bytes)
unfolding send_request_bytes
send_request_bytes-map command bytes at all zero i e =
    let done : i ≡ length bytes = omega arith in rw (done, drop-length bytes)
send_request_bytes-map command bytes at all (suc left) i e =
    let below : i < length bytes = omega arith in
    let byte : get_or bytes i 0 % 256 ≡ get_or bytes i 0 =
      omega (arith, All-get_or IsByte bytes i 0 all below) in
    rw
      (
        drop-get_or i bytes 0 below,
        at i below,
        byte,
        send_request_bytes-map command bytes at all left (i + 1) (omega arith),
      )
      (unfold uart_send_char in refl)

-- A command as its constructor builds it.
abbrev pub command_of : ℕ → ℕ → ℕ → ℕ → List ℕ → ℕ → TelegramState → SendCommand
command_of qq zz pb sb bytes tries s = record {
  base =
      request_of s (request_frame qq zz pb sb bytes) (crc8_array (request_body qq zz pb sb bytes));
  tries_count = tries;
}

module _ (qq zz pb sb : ℕ) (bytes : List ℕ) (s : TelegramState) (tries : ℕ)
    (short : length bytes ≤ 15) where
  abbrev command : SendCommand
  command = command_of qq zz pb sb bytes tries s

  nn-command : get_nn command.base ≡ length bytes
  unfolding get_nn
  nn-command = ground arith

  get_request_byte-command :
      (i : ℕ) → i < length bytes → get_request_byte command.base i ≡ pos (get_or bytes i 0)
  unfolding get_request_byte
  get_request_byte-command i below = ground (
    arith,
    get_or-behind_header qq zz pb sb (length bytes) (tail_from (bytes ++ crc ∷ [])) i,
    get_or-append_left (bytes ++ crc ∷ []) spare i 0,
    get_or-append_left bytes (crc ∷ []) i 0,
    length-append bytes (crc ∷ []),
  )
    where
      crc : ℕ
      crc = crc8_array (request_body qq zz pb sb bytes)

      spare : List ℕ
      spare = drop (length (request_frame qq zz pb sb bytes)) fresh_buffer

      tail_from : List ℕ → List ℕ
      tail_from xs = xs ++ spare

  -- The rest of the request is its bytes without the first, in order.
  pub uart_send_remaining_request_part-command :
      All IsByte bytes
      → uart_send_remaining_request_part command
        ≡ map uart_send_char (
            zz
            ∷ pb
            ∷ sb
            ∷ length bytes
            ∷ (bytes ++ crc8_array (request_body qq zz pb sb bytes) ∷ []))
  unfolding uart_send_remaining_request_part get_request_byte
  uart_send_remaining_request_part-command all =
      rw
        (
          small,
          send_request_bytes-map command bytes get_request_byte-command all (length bytes) 0
              (omega arith),
          map-append uart_send_char bytes (crc8_array (request_body qq zz pb sb bytes) ∷ []),
        )
        refl
    where
      small : leb 16 (length bytes) ≡ false
      small = ground arith

  -- The first byte and the rest, as bytes on the wire, are the frame.
  on_wire-command :
      All IsByte bytes
      → on_wire (uart_send_char (get_qq command.base) ∷ uart_send_remaining_request_part command)
        ≡ wire (request_frame qq zz pb sb bytes)
  unfolding get_qq
  on_wire-command all =
      rw (uart_send_remaining_request_part-command all)
        (on_wire-map (request_frame qq zz pb sb bytes))

-- A listener with the telegram `t` has the bytes of the command `c` to `zz`, with a CRC that is right.
pub record IsHeard (zz : ℕ) (c : SendCommand) (t : Telegram) : Type 0 where
  pub heard : Telegram
  pub receives :
      receive_bytes
        (syn ∷ on_wire (uart_send_char (get_qq c.base) ∷ uart_send_remaining_request_part c))
        false
        t
      ≡ some (false, heard)
  pub same_request : heard.request_buffer ≡ c.request_buffer
  pub ends : heard.state ≡ (if zz == broadcast_address then end_completed else wait_for_request_ack)
  pub valid : is_request_valid heard ≡ true

command-IsHeard :
    (qq zz pb sb : ℕ) (bytes : List ℕ) (t : Telegram)
    → IsBetween t
    → length bytes ≤ 15
    → All IsByte bytes
    → IsHeard zz (command_of qq zz pb sb bytes 0 wait_for_send) t
command-IsHeard qq zz pb sb bytes t between short all = record {
  heard = telegram_of last_state (body ++ crc ∷ []) crc;
  receives =
      rw (on_wire-command qq zz pb sb bytes wait_for_send 0 short all)
        (receive_bytes-request qq zz pb sb crc bytes t between short);
  same_request = refl;
  ends = refl;
  valid =
      is_request_valid-telegram_of qq zz pb sb crc bytes last_state short (ground arith)
      ∙ (==_iff crc crc).1 refl;
}
  where
    body : List ℕ
    body = request_body qq zz pb sb bytes

    crc : ℕ
    crc = crc8_array body

    last_state : TelegramState
    last_state = if zz == broadcast_address then end_completed else wait_for_request_ack

-- A command of at most 15 data bytes that the constructor builds is heard as a telegram with the same
-- bytes and a valid CRC, when its first byte and then the rest are sent behind a SYN, by every
-- listener that has no telegram and no escape open before the SYN: its next telegram has not begun,
-- or the last one has ended.
pub send_command-IsHeard :
    (qq zz command : ℕ) (bytes : List ℕ) (c : SendCommand) (t : Telegram)
    → IsBetween t
    → length bytes ≤ 15
    → All IsByte bytes
    → send_command qq zz command bytes ≡ some c
    → IsHeard zz c t
send_command-IsHeard qq zz command bytes c t between short all made =
    subst (λ c. IsHeard zz c t)
      (some-injective _ _ (sym (send_command-frame qq zz command bytes short) ∙ made))
      (command-IsHeard qq zz _ _ bytes t between short all)
