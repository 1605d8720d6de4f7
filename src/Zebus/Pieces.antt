-- ===== src/Zebus/Pieces.antt =====
-- The parts of a request at `process_received_char` of esphome/components/zebus/include/ebus.cpp: its
-- first byte, and several bytes behind it.
use mathlib.Core.List.{append_assoc, append-nil}
use native.Mathlib.Decide.{dec_le}
use esphome.Prelude.{
  ℕ, ◌+◌, ◌≤◌, ◌≡◌, refl, ap, ◌∙◌, Bool, true, false, ◌==◌, List, [], ◌∷◌, ◌++◌, map, length, some,
  arith,
}
use esphome.Telegram.{TelegramState, wait_for_request_data, wait_for_arbitration, syn, esc}
use esphome.Telegram.Received.{Telegram}
use esphome.Telegram.Frame.{announced, announced-append, announced-lt, length-snoc}
use esphome.Zebus.Telegram.{enter, get_nn, is_finished, initial_telegram}
use esphome.Zebus.Driver.{sent_bytes}
use esphome.Zebus.Receive.{receive_byte, receive_byte_in}
use esphome.Zebus.Safety.{pushed_request, push_request_data-pushed}
use esphome.Zebus.Kept.{current_telegram}
use esphome.Zebus.Escapes.{Holds, stored, byte-Holds}
use esphome.Zebus.Stuffing.{
  receive_bytes, is_whole, complete-Holds, settle-open, crc_step, byte-Arrives,
}

-- The bytes on the wire for a request, and its rolling CRC behind them.
abbrev pub sent_all : List ℕ → List ℕ
sent_all [] = []
sent_all (byte ∷ rest) = sent_bytes byte true ++ sent_all rest

abbrev pub crc_steps : List ℕ → List ℕ → ℕ → ℕ
crc_steps xs [] crc = crc
crc_steps xs (byte ∷ rest) crc = crc_steps (xs ++ stored byte ∷ []) rest (crc_step xs byte crc)

not_whole :
    (xs : List ℕ) (y : ℕ) (ys : List ℕ)
    → length xs + length {A = ℕ} (y ∷ ys) ≤ 5 + announced (xs ++ y ∷ ys)
    → is_whole (xs ++ y ∷ []) ≡ false
not_whole xs y ys h = elim (dec_le 5 (length (xs ++ y ∷ []))) [
  | yes long ↦ ground (
    arith,
    h,
    length-snoc xs y,
    ap announced (append_assoc xs (y ∷ []) ys),
    announced-append (xs ++ y ∷ []) ys long,
  )
  | no short ↦ ground (arith, short)
]

pub length-stored : (ys : List ℕ) → length (map stored ys) ≡ length ys
length-stored [] = refl
length-stored (y ∷ ys) = omega (arith, length-stored ys)

-- The telegram behind the bytes on the wire that stand for several.
pub record Behind (s : TelegramState) (xs : List ℕ) (crc : ℕ) (bytes : List ℕ) (t : Telegram)
    : Type 0 where
  pub last : Telegram
  pub holds : Holds s false xs crc last
  pub received : (rest : List ℕ) → receive_bytes (bytes ++ rest) t ≡ receive_bytes rest last

pub bytes-Behind :
    (ys xs : List ℕ) (crc : ℕ) (t : Telegram)
    → Holds wait_for_request_data false xs crc t
    → length xs + length ys ≤ 5 + announced (xs ++ map stored ys)
    → Behind wait_for_request_data (xs ++ map stored ys) (crc_steps xs ys crc) (sent_all ys) t
bytes-Behind [] xs crc t h room = record {
  last = t;
  holds = rw (append-nil xs) h;
  received = λ rest. refl;
}
bytes-Behind (y ∷ ys) xs crc t h room =
    let one =
      byte-Arrives h (omega (arith, room, announced-lt (xs ++ stored y ∷ map stored ys))) y in
    let more = bytes-Behind ys (xs ++ stored y ∷ []) (crc_step xs y crc) one.next one.holds (
      rw (append_assoc xs (stored y ∷ []) (map stored ys))
        (omega (arith, room, length-snoc xs (stored y)))) in
    let open' = settle-open one.next (
      ground (
        arith,
        complete-Holds one.holds,
        not_whole xs (stored y) (map stored ys) (omega (arith, room, length-stored ys)),
      )) in
    record {
      last = more.last;
      holds = rw (append_assoc xs (stored y ∷ []) (map stored ys)) at more.holds;
      received = λ rest.
          ap (λ bytes. receive_bytes bytes t) (append_assoc (sent_bytes y true) (sent_all ys) rest)
          ∙ one.received (sent_all ys ++ rest)
          ∙ ap (receive_bytes (sent_all ys ++ rest)) open'
          ∙ more.received rest;
    }

pub enter-Holds :
    {s : TelegramState} {waits : Bool} {xs : List ℕ} {crc : ℕ} {t : Telegram} (s' : TelegramState)
    → Holds s waits xs crc t
    → Holds s' waits xs crc (enter s' t)
unfolding enter get_nn
enter-Holds s' h = record {
  in_state = refl;
  rest = h.rest;
  buffer = h.buffer;
  room = h.room;
  position = h.position;
  rolling_crc = h.rolling_crc;
  awaits = h.awaits;
  length_byte = h.length_byte;
}

-- SYN, and a first byte that is neither SYN nor ESC.
abbrev started : Telegram
started = enter wait_for_arbitration initial_telegram

module _ (qq : ℕ) (e : (qq == esc) ≡ false) (s : (qq == syn) ≡ false) where
  started-Holds : Holds wait_for_arbitration false [] 0 started
  unfolding initial_telegram enter get_nn
  started-Holds = record {
    in_state = refl;
    rest = initial_telegram.request_buffer;
    buffer = refl;
    room = refl;
    position = refl;
    rolling_crc = refl;
    awaits = refl;
    length_byte = refl;
  }

  pub first : Telegram
  first = enter wait_for_request_data (pushed_request qq started)

  pub first-Holds : Holds wait_for_request_data false (stored qq ∷ []) (crc_step [] qq 0) first
  unfolding stored crc_step first
  first-Holds =
      rw (e, s)
        (rw (e) at (enter-Holds wait_for_request_data (byte-Holds started-Holds qq (omega arith))))

  first_pushed : receive_byte qq started ≡ some first
  unfolding receive_byte receive_byte_in first initial_telegram enter
  first_pushed = rw (s, push_request_data-pushed qq started (omega arith)) refl

  pub first_received :
      (rest : List ℕ)
      → receive_bytes (syn ∷ sent_bytes qq true ++ rest) initial_telegram ≡ receive_bytes rest first
  unfolding receive_bytes sent_bytes
  first_received rest = rw (e, s) (ground (arith, first_pushed, begun, under_way))
    where
      begun : receive_byte syn (current_telegram initial_telegram) ≡ some started
      begun =
          unfold receive_byte receive_byte_in current_telegram is_finished initial_telegram enter in
          refl

      under_way : current_telegram started ≡ started
      under_way = unfold current_telegram is_finished initial_telegram enter in refl
