-- ===== src/Zebus/Stuffing.antt =====
-- A byte of a request at `process_received_char` of esphome/components/zebus/include/ebus.cpp, escaped
-- as the sender of the same file escapes it.

use esphome.Prelude.{
  ℕ, ◌+◌, ◌<◌, ◌≡◌, ◌≢◌, refl, ap, sym, subst, ◌∙◌, Bool, true, false, not, ◌&&◌, ◌==◌, ltb,
  if◌then◌else◌, List, [], ◌∷◌, ◌++◌, length, length-append, Option, some, ◌>>=◌, arith, Bool-cases,
  inl, inr, ==_iff,
}
use esphome.Telegram.{wait_for_request_data, wait_for_request_ack, end_completed, syn, esc}
use esphome.Telegram.Received.{Telegram}
use esphome.Telegram.Frame.{announced, length-snoc}
use esphome.Zebus.Telegram.{enter, is_ack_expected, is_finished, is_request_complete}
use esphome.Zebus.Driver.{sent_bytes}
use esphome.Zebus.Receive.{receive_byte, receive_byte_in, store_request_byte}
use esphome.Zebus.Safety.{pushed_request, push_request_data-pushed}
use esphome.Zebus.Kept.{current_telegram}
use esphome.Zebus.Escapes.{Holds, stored, crc_with, byte-Holds, second-Holds}

-- One byte after the other, at the part of `process_received_char` that receives.
unfoldable pub receive_bytes : List ℕ → Telegram → Option Telegram
receive_bytes [] t = some t
receive_bytes (byte ∷ rest) t = do
  t' ← receive_byte byte (current_telegram t)
  receive_bytes rest t'

-- The telegram behind a byte that is stored, whether it ends the request or not.
unfoldable pub settle : Telegram → Telegram
settle t =
    if is_request_complete t
    then enter (if is_ack_expected t.base then wait_for_request_ack else end_completed) t
    else t

-- The request is complete with these bytes.
abbrev pub is_whole : List ℕ → Bool
is_whole xs = ltb 5 (length xs) && length xs == 6 + announced xs

pub complete-Holds :
    {waits : Bool} {xs : List ℕ} {crc : ℕ} {t : Telegram}
    → Holds wait_for_request_data waits xs crc t
    → is_request_complete t ≡ (is_whole xs && not waits)
unfolding is_request_complete
complete-Holds h = ground (arith, h.in_state, h.position, h.awaits, h.length_byte)

going :
    {waits : Bool} {xs : List ℕ} {crc : ℕ} {t : Telegram}
    → Holds wait_for_request_data waits xs crc t
    → current_telegram t ≡ t
unfolding current_telegram is_finished
going {t = t} h = ground (arith, h.in_state)

pushed_settles :
    {waits : Bool} {xs : List ℕ} {crc : ℕ} {t : Telegram}
    → Holds wait_for_request_data waits xs crc t
    → (byte : ℕ) → length xs < 22
    → store_request_byte byte t ≡ some (settle (pushed_request byte t))
unfolding store_request_byte settle
pushed_settles {xs = xs} {t = t} h byte room =
    rw
      (push_request_data-pushed byte t
        (omega (arith, h.position, ap length h.buffer, length-append xs h.rest, h.room, room)))
      refl

receive_bytes-pushed :
    {waits : Bool} {xs : List ℕ} {crc : ℕ} {t : Telegram}
    → Holds wait_for_request_data waits xs crc t
    → (byte : ℕ) (rest : List ℕ) → byte ≢ syn
    → length xs < 22
    → receive_bytes (byte ∷ rest) t ≡ receive_bytes rest (settle (pushed_request byte t))
unfolding receive_bytes
receive_bytes-pushed {t = t} h byte rest other room = rw (going h, received) refl
  where
    received : receive_byte byte t ≡ some (settle (pushed_request byte t))
    received =
        unfold receive_byte in
        subst (λ s. receive_byte_in s byte t ≡ some (settle (pushed_request byte t)))
          (sym h.in_state) (unfold receive_byte_in in ground (arith, pushed_settles h byte room))

pub settle-open : (t : Telegram) → is_request_complete t ≡ false → settle t ≡ t
unfolding settle
settle-open t open' = rw (open')

-- The rolling CRC after the one or two bytes on the wire that stand for a byte.
unfoldable pub crc_step : List ℕ → ℕ → ℕ → ℕ
crc_step xs byte crc =
    if byte == esc
    then crc_with (xs ++ esc ∷ []) 0x00 (crc_with xs esc crc)
    else if byte == syn
    then crc_with (xs ++ esc ∷ []) 0x01 (crc_with xs esc crc)
    else crc_with xs byte crc

-- The telegram behind the bytes on the wire that stand for one byte.
pub record Arrives (xs : List ℕ) (crc byte : ℕ) (t : Telegram) : Type 0 where
  pub next : Telegram
  pub holds : Holds wait_for_request_data false (xs ++ stored byte ∷ []) (crc_step xs byte crc) next
  pub received :
      (rest : List ℕ)
      → receive_bytes (sent_bytes byte true ++ rest) t ≡ receive_bytes rest (settle next)

module _ {xs : List ℕ} {crc : ℕ} {t : Telegram} (h : Holds wait_for_request_data false xs crc t)
    (room : length xs < 21) where
  -- An ESC and the byte behind it.
  pair-Holds :
      (second : ℕ)
      → Holds wait_for_request_data false
          (xs ++ esc ∷ [])
          (crc_with (xs ++ esc ∷ []) second (crc_with xs esc crc))
          (pushed_request second (pushed_request esc t))
  pair-Holds second =
      second-Holds (byte-Holds h esc (omega (arith, room))) second
        (omega (arith, room, length-snoc xs esc))

  pair-received :
      (second : ℕ) (rest : List ℕ)
      → second ≢ syn
      → receive_bytes (esc ∷ second ∷ rest) t
        ≡ receive_bytes rest (settle (pushed_request second (pushed_request esc t)))
  pair-received second rest other =
      let first = byte-Holds h esc (omega (arith, room)) in
      receive_bytes-pushed h esc (second ∷ rest) (omega arith) (omega (arith, room))
      ∙ ap (receive_bytes (second ∷ rest))
          (settle-open (pushed_request esc t) (ground (arith, complete-Holds first)))
      ∙ receive_bytes-pushed first second rest other (omega (arith, room, length-snoc xs esc))

  esc-Arrives : Arrives xs crc esc t
  unfolding stored crc_step sent_bytes
  esc-Arrives = record {
    next = pushed_request 0x00 (pushed_request esc t);
    holds = pair-Holds 0x00;
    received = λ rest. pair-received 0x00 rest (omega arith);
  }

  syn-Arrives : Arrives xs crc syn t
  unfolding stored crc_step sent_bytes
  syn-Arrives = record {
    next = pushed_request 0x01 (pushed_request esc t);
    holds = pair-Holds 0x01;
    received = λ rest. pair-received 0x01 rest (omega arith);
  }

  plain-Arrives : (byte : ℕ) → (byte == esc) ≡ false → (byte == syn) ≡ false → Arrives xs crc byte t
  unfolding stored crc_step sent_bytes
  plain-Arrives byte e s = record {
    next = pushed_request byte t;
    holds = rw (e, s) (rw (e) at (byte-Holds h byte (omega (arith, room))));
    received = λ rest.
        rw (e, s) (receive_bytes-pushed h byte rest (ground (arith, s)) (omega (arith, room)));
  }

  pub byte-Arrives : (byte : ℕ) → Arrives xs crc byte t
  byte-Arrives byte = elim (Bool-cases (byte == esc)) [
    | inl e ↦ subst (λ b. Arrives xs crc b t) (sym ((==_iff byte esc).0 e)) esc-Arrives
    | inr e ↦ elim (Bool-cases (byte == syn)) [
      | inl s ↦ subst (λ b. Arrives xs crc b t) (sym ((==_iff byte syn).0 s)) syn-Arrives
      | inr s ↦ plain-Arrives byte e s
    ]
  ]
