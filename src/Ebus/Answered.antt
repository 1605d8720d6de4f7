-- ===== src/Ebus/Answered.antt =====
-- What drivers of esphome/components/ebus/ebus.cpp answer where an acknowledgement is awaited, and what
-- becomes of the command meanwhile.
use esphome.Prelude.{
  ℕ, ◌*◌, ◌≤◌, ◌<◌, ◌≡◌, ◌≢◌, ◌⊎◌, inl, inr, refl, ap, sym, subst, ◌∙◌, true, List, [], ◌∷◌, length,
  length-append, arith, All, All-append,
}
use esphome.Telegram.{
  wait_for_request_ack, wait_for_response_ack, wait_for_command_ack, end_completed, syn, ack,
  same_state, get_zz, get_qq,
}
use esphome.Telegram.Received.{Telegram, is_request_valid, is_response_valid}
use esphome.Telegram.Command.{SendCommand, command_to_state}
use esphome.Elf.{to_secondary}
use esphome.Ebus.{
  Ebus, wire_bytes, uart_send_char, uart_send_char_as, find_reply, send_reply, handle_response,
}
use esphome.Ebus.Process.{acknowledge}
use esphome.Ebus.Wire.{wire}
use esphome.Ebus.Sending.{on_wire}
use esphome.Ebus.Ranks.{IsNoSyn}
use esphome.Ebus.Settled.{after_byte, answer_to}
use esphome.Ebus.Hearing.{IsGone, after_bytes}

pub wire_bytes-IsNoSyn : (byte : ℕ) → All IsNoSyn (wire_bytes byte true)
unfolding wire_bytes
wire_bytes-IsNoSyn byte = ground arith

pub wire-IsNoSyn : (bytes : List ℕ) → All IsNoSyn (wire bytes)
wire-IsNoSyn [] = tt
wire-IsNoSyn (byte ∷ rest) =
    All-append IsNoSyn (wire_bytes byte true) (wire rest) (wire_bytes-IsNoSyn byte)
      (wire-IsNoSyn rest)

pub length-wire_bytes :
    (byte : ℕ) → (0 < length (wire_bytes byte true)) × (length (wire_bytes byte true) ≤ 2)
unfolding wire_bytes
length-wire_bytes byte = ground arith

pub length-wire_le : (bytes : List ℕ) → length (wire bytes) ≤ 2 * length bytes
length-wire_le [] = omega arith
length-wire_le (byte ∷ rest) = omega (
  arith,
  length-append (wire_bytes byte true) (wire rest),
  length-wire_bytes byte,
  length-wire_le rest,
)

pub length-wire_pos : (byte : ℕ) (rest : List ℕ) → 0 < length (wire (byte ∷ rest))
length-wire_pos byte rest =
    omega (arith, length-append (wire_bytes byte true) (wire rest), length-wire_bytes byte)

-- What the command has become when its own bytes and the answer have gone by.
abbrev pub IsSent : SendCommand → SendCommand → Type 0
IsSent c c' =
    (c' ≡ command_to_state wait_for_command_ack c) ⊎ (c' ≡ command_to_state end_completed c)

after_byte-IsSent : (byte : ℕ) (c c' : SendCommand) → IsSent c c' → IsSent c (after_byte byte c')
unfolding command_to_state
after_byte-IsSent byte c c' (inl e) =
    subst (λ x. IsSent c (after_byte byte x)) (sym e) (ground arith)
after_byte-IsSent byte c c' (inr e) = subst (λ x. IsSent c (after_byte byte x)) (sym e) (inr refl)

pub after_byte-ack :
    (c c' : SendCommand) → IsSent c c' → after_byte ack c' ≡ command_to_state end_completed c
unfolding command_to_state
after_byte-ack c c' (inl e) = ap (after_byte ack) e
after_byte-ack c c' (inr e) = ap (after_byte ack) e

-- The answers where an acknowledgement is awaited.
pub answer_to-not_ours :
    (e : Ebus) (t : Telegram)
    → t.state ≡ wait_for_request_ack
    → get_zz t.base ≢ to_secondary e.primary_address
    → answer_to e t ≡ []
unfolding answer_to acknowledge handle_response
answer_to-not_ours e t s other = ground (arith, s, other)

pub answer_to-ours :
    (e : Ebus) (t : Telegram)
    → t.state ≡ wait_for_request_ack
    → get_zz t.base ≡ to_secondary e.primary_address
    → is_request_valid t ≡ true
    → answer_to e t ≡ on_wire (send_reply (find_reply e.send_response_handlers t))
unfolding answer_to acknowledge handle_response
answer_to-ours e t s ours valid =
    rw (ap (λ s. same_state s wait_for_request_ack) s) (ground (arith, s, ours, valid))

pub answer_to-response :
    (e : Ebus) (t : Telegram)
    → t.state ≡ wait_for_response_ack
    → get_qq t.base ≡ e.primary_address
    → is_response_valid t ≡ true
    → answer_to e t ≡ ack ∷ syn ∷ []
unfolding answer_to acknowledge handle_response uart_send_char uart_send_char_as wire_bytes
answer_to-response e t s own valid = ground (arith, s, own, valid)

pub answer_to-other_response :
    (e : Ebus) (t : Telegram)
    → t.state ≡ wait_for_response_ack
    → get_qq t.base ≢ e.primary_address
    → answer_to e t ≡ []
unfolding answer_to acknowledge handle_response
answer_to-other_response e t s other = ground (arith, s, other)

pub after_bytes-IsSent :
    (bytes : List ℕ) (c c' : SendCommand) → IsSent c c' → IsSent c (after_bytes bytes c')
after_bytes-IsSent [] c c' sent = sent
after_bytes-IsSent (byte ∷ rest) c c' sent =
    after_bytes-IsSent rest c (after_byte byte c') (after_byte-IsSent byte c c' sent)

pub after_bytes-completed :
    (bytes : List ℕ) (c : SendCommand) → c.state ≡ end_completed → after_bytes bytes c ≡ c
after_bytes-completed [] c s = refl
after_bytes-completed (byte ∷ rest) c s =
    ap (after_bytes rest) (unchanged byte) ∙ after_bytes-completed rest c s
  where
    unchanged : (byte : ℕ) → after_byte byte c ≡ c
    unchanged byte = rw (ap (λ s. same_state s wait_for_command_ack) s) refl

pub IsSent-IsGone : (c c' : SendCommand) → IsSent c c' → IsGone c'
unfolding command_to_state
IsSent-IsGone c c' (inl e) = inl (ap (λ c. c.state) e)
IsSent-IsGone c c' (inr e) = inr (ap (λ c. c.state) e)
