-- ===== src/Ebus/Hearing.antt =====
-- One byte of a message that goes by two drivers of esphome/components/ebus/ebus.cpp on one wire: both
-- listen, and nothing is handed to a queue.

use esphome.Prelude.{
  ℕ, ◌≡◌, ◌≢◌, ◌⊎◌, inl, inr, refl, ap₂, subst, ◌∙◌, Bool, false, if◌then◌else◌, List, [], ◌∷◌,
  ◌++◌, some, none, arith,
}
use esphome.Telegram.{wait_for_command_ack, end_completed, is_finished}
use esphome.Telegram.Received.{Telegram}
use esphome.Telegram.Command.{SendCommand, command_to_state}
use esphome.Ebus.{Ebus, Effect}
use esphome.Ebus.Process.{
  process_received_char, unescape, Unescaped, real_byte, escape_begins, invalid_sequence,
}
use esphome.Ebus.Receiver.{receive_step}
use esphome.Ebus.Queueing.{queued, ended, handed_at, process_unescaped-queued}
use esphome.Ebus.Sending.{on_wire}
use esphome.Ebus.Says.{nothing_queued}
use esphome.Ebus.Ranks.{IsNoSyn}
use esphome.Ebus.Settled.{
  SameDriver, after_byte, IsSettled, answer_to, Hears, process_received_char-Hears,
}
use esphome.Ebus.Bus.{Talk, Talks, Talks-byte}

-- What a driver has received.
abbrev pub Hearing : Bool → Telegram → Ebus → Type 0
Hearing in_esc t e = (e.in_esc ≡ in_esc) × (e.receiving_telegram ≡ t)

-- The command has gone out, or is done.
abbrev pub IsGone : SendCommand → Type 0
IsGone c = (c.state ≡ wait_for_command_ack) ⊎ (c.state ≡ end_completed)

abbrev pub after_bytes : List ℕ → SendCommand → SendCommand
after_bytes [] c = c
after_bytes (byte ∷ rest) c = after_bytes rest (after_byte byte c)

pub after_byte-IsGone : (byte : ℕ) (c : SendCommand) → IsGone c → IsGone (after_byte byte c)
unfolding command_to_state
after_byte-IsGone byte c gone = ground arith

pub IsGone-IsSettled : (byte : ℕ) (c : SendCommand) → IsNoSyn byte → IsGone c → IsSettled byte c
IsGone-IsSettled byte c n (inl s) = inl (s, n)
IsGone-IsSettled byte c n (inr s) = inr s

pub hears :
    (byte : ℕ) (e : Ebus) (in_esc : Bool) (t : Telegram) (r : Bool × Telegram)
    → Hearing in_esc t e
    → IsSettled byte e.active_command
    → receive_step in_esc t byte ≡ some r
    → Hears byte e r
hears byte e in_esc t r h settled step =
    process_received_char-Hears byte e r settled (rw (h.0, h.1) step)

handed_at-none :
    (u : Unescaped) (e : Ebus) → is_finished e.receiving_telegram.base ≡ false → handed_at u e ≡ []
unfolding handed_at ended
handed_at-none escape_begins e going = refl
handed_at-none invalid_sequence e going = refl
handed_at-none (real_byte real) e going = ground (arith, going)

pub SameDriver-trans : (e e' e'' : Ebus) → SameDriver e e' → SameDriver e' e'' → SameDriver e e''
SameDriver-trans e e' e'' h k = (k.0 ∙ h.0, k.1 ∙ h.1, k.2 ∙ h.2)

pub none-some : {A : Type 0} {x : A} → none ≢ some x
none-some e = cc

returned-queued :
    (byte : ℕ) (e next : Ebus) (effects : List Effect)
    → process_received_char nothing_queued byte e ≡ some (next, effects)
    → is_finished e.receiving_telegram.base ≡ false
    → queued effects ≡ []
unfolding process_received_char
returned-queued byte e next effects returns going =
    process_unescaped-queued (unescape e.in_esc byte) nothing_queued byte e next effects returns
    ∙ handed_at-none (unescape e.in_esc byte) e going

-- A byte at which nothing is handed to a queue.
pub Talks-quiet_byte :
    (byte : ℕ) (rest said_first said_second : List ℕ) (a a' b b' : Ebus)
    (sent_first sent_second : List Effect) (talk : Talk)
    → process_received_char nothing_queued byte a ≡ some (a', sent_first)
    → process_received_char nothing_queued byte b ≡ some (b', sent_second)
    → is_finished a.receiving_telegram.base ≡ false
    → is_finished b.receiving_telegram.base ≡ false
    → on_wire sent_first ≡ said_first
    → on_wire sent_second ≡ said_second
    → Talks (rest ++ (said_first ++ said_second)) a' b' talk
    → Talks (byte ∷ rest) a b (record talk { carried = byte ∷ talk.carried })
Talks-quiet_byte byte rest said_first said_second a a' b b' sent_first sent_second talk p q ga gb sa
      sb more =
    subst
      (λ first.
        Talks (byte ∷ rest) a b (record talk {
          carried = byte ∷ talk.carried;
          first_queued = first ++ talk.first_queued;
        }))
      (returned-queued byte a a' sent_first p ga)
      (subst
        (λ second. Talks (byte ∷ rest) a b (record talk {
          carried = byte ∷ talk.carried;
          first_queued = queued sent_first ++ talk.first_queued;
          second_queued = second ++ talk.second_queued;
        }))
        (returned-queued byte b b' sent_second q gb)
        (Talks-byte byte rest (said_first ++ said_second) a a' b b' sent_first sent_second talk p q
          (ap₂ (◌++◌) sa sb) more))

-- A byte of a message, with what both make of it.
pub Talks-heard_byte :
    {byte : ℕ} {a b : Ebus} {r : Bool × Telegram} (rest said_first said_second : List ℕ)
    (talk : Talk) (ha : Hears byte a r) (hb : Hears byte b r)
    → is_finished a.receiving_telegram.base ≡ false
    → is_finished b.receiving_telegram.base ≡ false
    → (if r.0 then [] else answer_to a r.1) ≡ said_first
    → (if r.0 then [] else answer_to b r.1) ≡ said_second
    → Talks (rest ++ (said_first ++ said_second)) ha.next hb.next talk
    → Talks (byte ∷ rest) a b (record talk { carried = byte ∷ talk.carried })
Talks-heard_byte {byte} {a} {b} rest said_first said_second talk ha hb ga gb sa sb more =
    Talks-quiet_byte byte rest said_first said_second a ha.next b hb.next ha.effects hb.effects talk
      ha.returns hb.returns ga gb (ha.sent ∙ sa) (hb.sent ∙ sb) more
