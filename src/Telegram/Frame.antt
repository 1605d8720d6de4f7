-- ===== src/Telegram/Frame.antt =====
-- A request as the sequence of bytes that were pushed into it.
use mathlib.Core.List.{append_assoc, append-nil}
use native.Mathlib.Decide.{dec_le}
use esphome.Prelude.{
  ℕ, suc, ◌+◌, ◌≤◌, ◌<◌, ◌≡◌, refl, true, false, ltb, if◌then◌else◌, List, [], ◌∷◌, ◌++◌, length,
  length-append, get_or, set, set-append, drop, drop-cons, length-drop, replicate, some, none,
  arith,
}
use esphome.Elf.{crc8_calc, crc8_from}
use esphome.Telegram.{TelegramState, TelegramBase, push_req_data, get_nn, esc}
use esphome.Telegram.Command.{push_all}
use esphome.Telegram.Bounds.{clip}

abbrev pub fresh_buffer : List ℕ
fresh_buffer = esc ∷ esc ∷ replicate 20 0

-- The request after the bytes `xs` were pushed, with its rolling CRC.
abbrev pub request_of : TelegramState → List ℕ → ℕ → TelegramBase
request_of s xs crc = record {
  state = s;
  request_buffer = xs ++ drop (length xs) fresh_buffer;
  request_buffer_pos = length xs;
  request_rolling_crc = crc;
  wait_for_escaped_char = false;
}

-- The length that the bytes announce, 0 before the length byte.
abbrev pub announced : List ℕ → ℕ
announced xs = clip (get_or xs 4 0)

pub get_nn-request_of :
    (s : TelegramState) (xs : List ℕ) (crc : ℕ) → get_nn (request_of s xs crc) ≡ announced xs
unfolding get_nn
get_nn-request_of s [] crc = refl
get_nn-request_of s (a ∷ []) crc = refl
get_nn-request_of s (a ∷ b ∷ []) crc = refl
get_nn-request_of s (a ∷ b ∷ c ∷ []) crc = refl
get_nn-request_of s (a ∷ b ∷ c ∷ d ∷ []) crc = refl
get_nn-request_of s (a ∷ b ∷ c ∷ d ∷ e ∷ xs) crc = refl

pub announced-append : (xs ys : List ℕ) → 5 ≤ length xs → announced (xs ++ ys) ≡ announced xs
announced-append (a ∷ b ∷ c ∷ d ∷ e ∷ xs) ys h = refl
announced-append [] ys h = absurd (omega arith)
announced-append (a ∷ []) ys h = absurd (omega arith)
announced-append (a ∷ b ∷ []) ys h = absurd (omega arith)
announced-append (a ∷ b ∷ c ∷ []) ys h = absurd (omega arith)
announced-append (a ∷ b ∷ c ∷ d ∷ []) ys h = absurd (omega arith)

pub length-snoc : (xs : List ℕ) (byte : ℕ) → length (xs ++ byte ∷ []) ≡ suc (length xs)
length-snoc xs byte = omega (arith, length-append xs (byte ∷ []))

set-fresh :
    (xs : List ℕ) (byte : ℕ)
    → length xs < 22
    → set (xs ++ drop (length xs) fresh_buffer) (length xs) byte
      ≡ (xs ++ byte ∷ []) ++ drop (length (xs ++ byte ∷ [])) fresh_buffer
set-fresh xs byte h =
    let (z, e) = drop-cons (length xs) fresh_buffer h in
    rw (
      e,
      set-append xs z (drop (suc (length xs)) fresh_buffer) byte,
      append_assoc xs (byte ∷ []),
      length-snoc xs byte,
    )

length-fresh : (xs : List ℕ) → length xs ≤ 22 → length (xs ++ drop (length xs) fresh_buffer) ≡ 22
length-fresh xs h =
    omega (
      arith,
      length-append xs (drop (length xs) fresh_buffer),
      length-drop (length xs) fresh_buffer,
    )

announced-fresh :
    (xs : List ℕ) → clip (get_or (xs ++ drop (length xs) fresh_buffer) 4 0) ≡ announced xs
unfolding get_nn
announced-fresh xs = get_nn-request_of TelegramState.unknown xs 0

-- One more byte.
pub push_req_data-request_of :
    (s : TelegramState) (xs : List ℕ) (crc byte : ℕ)
    → length xs < 22
    → push_req_data byte (request_of s xs crc)
      ≡ some (
          request_of s
            (xs ++ byte ∷ [])
            (if ltb (length xs) (5 + announced xs) then crc8_calc byte crc else crc))
unfolding push_req_data
push_req_data-request_of s xs crc byte h = ground (
  arith,
  length-fresh xs (omega arith),
  announced-fresh xs,
  set-fresh xs byte h,
  length-snoc xs byte,
)

pub announced-lt : (xs : List ℕ) → announced xs < 16
announced-lt xs = ground arith

pub in_crc :
    (xs : List ℕ) (y : ℕ) (ys : List ℕ)
    → length xs + length {A = ℕ} (y ∷ ys) ≤ 5 + announced (xs ++ y ∷ ys)
    → ltb (length xs) (5 + announced xs) ≡ true
in_crc xs y ys h = elim (dec_le 5 (length xs)) [
  | yes full ↦ ground (arith, announced-append xs (y ∷ ys) full)
  | no short ↦ ground arith
]

-- The bytes `ys` that follow `xs` are data or header, so all of them go into the CRC.
pub push_all-request_of :
    (ys xs : List ℕ) (s : TelegramState) (crc : ℕ)
    → length xs + length ys ≤ 5 + announced (xs ++ ys)
    → push_all ys (request_of s xs crc) ≡ some (request_of s (xs ++ ys) (crc8_from crc ys))
unfolding push_all crc8_from
push_all-request_of [] xs s crc h = rw (append-nil xs)
push_all-request_of (y ∷ ys) xs s crc h =
    rw
      (
        push_req_data-request_of s xs crc y (omega (arith, announced-lt (xs ++ y ∷ ys))),
        in_crc xs y ys h,
      )
      (rw (append_assoc xs (y ∷ []) ys) at
        (push_all-request_of ys (xs ++ y ∷ []) s (crc8_calc y crc) further))
  where
    further : length (xs ++ y ∷ []) + length ys ≤ 5 + announced ((xs ++ y ∷ []) ++ ys)
    further = rw (append_assoc xs (y ∷ []) ys) (omega (arith, length-snoc xs y))

-- There is no room for one more byte.
pub push_req_data-full :
    (s : TelegramState) (xs : List ℕ) (crc byte : ℕ)
    → length xs ≡ 22
    → push_req_data byte (request_of s xs crc) ≡ none
unfolding push_req_data
push_req_data-full s xs crc byte h = ground (arith, length-fresh xs (omega arith))
