-- ===== src/Zebus/Escapes.antt =====
-- What `pushBuffer` of esphome/components/zebus/include/telegram.cpp makes of escaped bytes.
use mathlib.Core.List.{append_assoc}
use esphome.Prelude.{
  ℕ, ◌+◌, ◌<◌, ◌≡◌, refl, ap, sym, ◌∙◌, Bool, true, false, ◌==◌, ltb, if◌then◌else◌, List, [], ◌∷◌,
  ◌++◌, length, length-append, get_or, set, set-append, arith,
}
use esphome.Telegram.{TelegramState, syn, esc}
use esphome.Telegram.Received.{Telegram}
use esphome.Telegram.Bounds.{clip, nn_after}
use esphome.Telegram.Frame.{announced, length-snoc}
use esphome.Zebus.Elf.{crc8_calc}
use esphome.Zebus.Telegram.{get_nn}
use esphome.Zebus.Safety.{pushed_request}

-- The byte that ends up in the buffer: an escaped SYN is stored as ESC.
unfoldable pub stored : ℕ → ℕ
stored byte = if byte == syn then esc else byte

-- A request under way whose bytes so far are `xs`. Behind them the buffer holds anything.
pub record Holds (s : TelegramState) (waits : Bool) (xs : List ℕ) (crc : ℕ) (t : Telegram)
    : Type 0 where
  pub in_state : t.state ≡ s
  pub rest : List ℕ
  pub buffer : t.request_buffer ≡ xs ++ rest
  pub room : length xs + length rest ≡ 22
  pub position : t.request_buffer_pos ≡ length xs
  pub rolling_crc : t.request_rolling_crc ≡ crc
  pub awaits : t.wait_for_escaped_char ≡ waits
  pub length_byte : get_nn t.base ≡ announced xs

-- A list that is not empty.
uncons : (xs : List ℕ) → 0 < length xs → (z : ℕ) × (zs : List ℕ) × (xs ≡ z ∷ zs)
uncons [] h = elim h [ ]
uncons (z ∷ zs) h = (z, zs, refl)

-- A byte goes into the CRC if it is before the place of the CRC.
abbrev pub crc_with : List ℕ → ℕ → ℕ → ℕ
crc_with xs byte crc = if ltb (length xs) (5 + announced xs) then crc8_calc byte crc else crc

announced-snoc :
    (xs : List ℕ) (byte : ℕ)
    → announced (xs ++ byte ∷ []) ≡ (if length xs == 4 then clip byte else announced xs)
announced-snoc [] byte = refl
announced-snoc (a ∷ []) byte = refl
announced-snoc (a ∷ b ∷ []) byte = refl
announced-snoc (a ∷ b ∷ c ∷ []) byte = refl
announced-snoc (a ∷ b ∷ c ∷ d ∷ []) byte = refl
announced-snoc (a ∷ b ∷ c ∷ d ∷ e ∷ xs) byte = ground arith

set-end :
    (xs : List ℕ) (z : ℕ) (zs : List ℕ) (v : ℕ)
    → set (xs ++ z ∷ zs) (length xs) v ≡ (xs ++ v ∷ []) ++ zs
set-end xs z zs v = set-append xs z zs v ∙ sym (append_assoc xs (v ∷ []) zs)

module _ {s : TelegramState} {xs : List ℕ} {crc : ℕ} {t : Telegram}
    (h : Holds s false xs crc t) where
  nn-pushed :
      (byte : ℕ)
      → clip (get_or (set t.request_buffer t.request_buffer_pos byte) 4 0)
        ≡ announced (xs ++ byte ∷ [])
  unfolding get_nn
  nn-pushed byte = ground (
    arith,
    nn_after t.request_buffer 4 t.request_buffer_pos byte,
    announced-snoc xs byte,
    ap length h.buffer,
    length-append xs h.rest,
    h.room,
    h.position,
    h.length_byte,
  )

  -- One more byte; behind an ESC another one is awaited.
  pub byte-Holds :
      (byte : ℕ)
      → length xs < 22
      → Holds s (byte == esc) (xs ++ byte ∷ []) (crc_with xs byte crc) (pushed_request byte t)
  unfolding pushed_request get_nn
  byte-Holds byte below =
      let (z, zs, e) = uncons h.rest (omega (arith, h.room)) in
      record {
        in_state = h.in_state;
        rest = zs;
        buffer = ground (
          arith,
          ap (λ r. set (xs ++ r) (length xs) byte) e,
          set-end xs z zs byte,
          h.buffer,
          h.position,
          h.awaits,
        );
        room = omega (arith, h.room, ap length e, length-snoc xs byte);
        position = ground (arith, h.position, h.awaits, length-snoc xs byte);
        rolling_crc = ground (arith, h.position, h.rolling_crc, h.length_byte);
        awaits = ground (arith, h.awaits);
        length_byte = ground (arith, nn-pushed byte, h.awaits);
      }

announced-four : (xs : List ℕ) → length xs ≡ 4 → announced xs ≡ 0
announced-four [] h = refl
announced-four (a ∷ []) h = refl
announced-four (a ∷ b ∷ []) h = refl
announced-four (a ∷ b ∷ c ∷ []) h = refl
announced-four (a ∷ b ∷ c ∷ d ∷ []) h = refl
announced-four (a ∷ b ∷ c ∷ d ∷ e ∷ xs) h = absurd (omega arith)

-- The byte behind an ESC is written where the next one will be.
pub second-Holds :
    {s : TelegramState} {xs : List ℕ} {crc : ℕ} {t : Telegram}
    → Holds s true xs crc t
    → (byte : ℕ) → length xs < 22
    → Holds s false xs (crc_with xs byte crc) (pushed_request byte t)
unfolding pushed_request get_nn
second-Holds {s} {xs} {crc} {t} h byte below =
    let (z, zs, e) = uncons h.rest (omega (arith, h.room)) in
    let decoded : ℕ = if byte == 0x00 then esc else syn in
    record {
      in_state = h.in_state;
      rest = decoded ∷ zs;
      buffer = ground (
        arith,
        ap (λ r. set (xs ++ r) (length xs) decoded) e,
        set-append xs z zs decoded,
        h.buffer,
        h.position,
        h.awaits,
      );
      room = omega (arith, h.room, ap length e);
      position = ground (arith, h.position, h.awaits);
      rolling_crc = ground (arith, h.position, h.rolling_crc, h.length_byte);
      awaits = ground (arith, h.awaits);
      length_byte = ground (
        arith,
        nn_after t.request_buffer 4 t.request_buffer_pos decoded,
        announced-four xs,
        h.length_byte,
        h.position,
        h.awaits,
        ap length h.buffer,
        length-append xs h.rest,
        h.room,
      );
    }
