-- ===== src/Ebus/Wire.antt =====
-- Bytes on the wire, escaped as `uart_send_char_` of esphome/components/ebus/ebus.cpp sends them, and
-- how its `process_received_char` receives them.
use mathlib.Core.List.{append_assoc}
use esphome.Prelude.{
  ℕ, ◌≡◌, refl, ap, sym, ◌∙◌, ◌⊎◌, inl, inr, Bool, true, false, ◌==◌, if◌then◌else◌, List, [], ◌∷◌,
  ◌++◌, Option, some, none, ◌>>=◌, arith, Bool-cases, ==_iff,
}
use esphome.Telegram.{wait_for_arbitration, syn, esc, is_finished}
use esphome.Telegram.Received.{Telegram, new_telegram, to_state}
use esphome.Ebus.{wire_bytes}
use esphome.Ebus.Receive.{receive_char}
use esphome.Ebus.Receiver.{receive_step, fresh_telegram}
use esphome.Ebus.Process.{unescape, real_byte}

-- One received byte after the other.
abbrev pub receive_bytes : List ℕ → Bool → Telegram → Option (Bool × Telegram)
receive_bytes [] in_esc t = some (in_esc, t)
receive_bytes (byte ∷ rest) in_esc t =
    receive_step in_esc t byte >>= λ next. receive_bytes rest next.0 next.1

-- The bytes on the wire that stand for the given ones.
abbrev pub wire : List ℕ → List ℕ
wire [] = []
wire (byte ∷ rest) = wire_bytes byte true ++ wire rest

-- The last of the bytes on the wire that stand for one byte.
abbrev pub last_on_wire : ℕ → ℕ
last_on_wire byte = if byte == esc then 0x00 else if byte == syn then 0x01 else byte

pub last_on_wire-ne-syn : (byte : ℕ) → (last_on_wire byte == syn) ≡ false
last_on_wire-ne-syn byte = ground arith

receive_step-real_byte :
    (in_esc : Bool) (t : Telegram) (received real : ℕ) (rest : List ℕ)
    → unescape in_esc received ≡ real_byte real
    → is_finished t.base ≡ false
    → receive_bytes (received ∷ rest) in_esc t
      ≡ (receive_char received real t >>= λ t'. receive_bytes rest false t')
unfolding receive_step fresh_telegram
receive_step-real_byte in_esc t received real rest e going =
    rw (e, going) (bind_pair (receive_char received real t))
  where
    closed : Telegram → Option (Bool × Telegram)
    closed t' = some (false, t')

    bind_pair :
        (m : Option Telegram)
        → (m >>= closed >>= λ next. receive_bytes rest next.0 next.1)
          ≡ (m >>= λ t'. receive_bytes rest false t')
    bind_pair none = refl
    bind_pair (some t') = refl

-- A byte on the wire is received as itself, and never as a SYN.
pub receive-wire_bytes :
    (byte : ℕ) (t : Telegram) (rest : List ℕ)
    → is_finished t.base ≡ false
    → receive_bytes (wire_bytes byte true ++ rest) false t
      ≡ (receive_char (last_on_wire byte) byte t >>= λ t'. receive_bytes rest false t')
unfolding wire_bytes unescape receive_step
receive-wire_bytes byte t rest going = elim (Bool-cases (byte == esc)) [
  | inl e ↦ rw (e, (==_iff byte esc).0 e) (receive_step-real_byte true t 0x00 esc rest refl going)
  | inr n ↦ rw n (elim (Bool-cases (byte == syn)) [
    | inl e ↦ rw (e, (==_iff byte syn).0 e) (receive_step-real_byte true t 0x01 syn rest refl going)
    | inr m ↦ rw m (receive_step-real_byte false t byte byte rest (rw n) going)
  ])
]

pub wire-append : (xs ys : List ℕ) → wire (xs ++ ys) ≡ wire xs ++ wire ys
wire-append [] ys = refl
wire-append (x ∷ xs) ys =
    rw (wire-append xs ys) (sym (append_assoc (wire_bytes x true) (wire xs) (wire ys)))

-- No telegram is open: the next one has not begun, or the last one has ended.
abbrev pub IsBetween : Telegram → Type 0
IsBetween t =
    (t ≡ new_telegram)
    ⊎ ((t ≡ to_state wait_for_arbitration new_telegram) ⊎ (is_finished t.base ≡ true))

syn_received :
    (t : Telegram) → IsBetween t → receive_step false t syn ≡ receive_step false new_telegram syn
unfolding is_finished new_telegram
syn_received t (inl fresh) = ap (λ t. receive_step false t syn) fresh
syn_received t (inr (inl begun)) = ap (λ t. receive_step false t syn) begun ∙ again
  where
    again :
        receive_step false (to_state wait_for_arbitration new_telegram) syn
        ≡ receive_step false new_telegram syn
    again =
        unfold receive_step unescape fresh_telegram is_finished receive_char to_state
          new_telegram in
        refl
syn_received t (inr (inr finished)) =
    unfold receive_step unescape fresh_telegram in rw (finished) refl

-- Between telegrams, a SYN leaves the same as in a new one.
pub syn-between :
    (t : Telegram) (rest : List ℕ)
    → IsBetween t
    → receive_bytes (syn ∷ rest) false t ≡ receive_bytes (syn ∷ rest) false new_telegram
syn-between t rest between =
    ap (λ m. m >>= λ next. receive_bytes rest next.0 next.1) (syn_received t between)
