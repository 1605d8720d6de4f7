-- ===== src/Ebus/Bus.antt =====
-- Two drivers of esphome/components/ebus/ebus.cpp on one wire. Each byte on the wire is received by
-- both, in turn, and what they send follows the bytes that are there. No command is queued.

use esphome.Prelude.{
  ℕ, zero, suc, ◌≤◌, ◌≡◌, refl, List, [], ◌∷◌, ◌++◌, length, Option, some, none, ◌>>=◌, arith,
}
use esphome.Telegram.Received.{Telegram}
use esphome.Ebus.{Ebus, Effect}
use esphome.Ebus.Process.{process_received_char}
use esphome.Ebus.Queueing.{queued}
use esphome.Ebus.Sending.{on_wire}
use esphome.Ebus.Says.{nothing_queued}

-- The bytes that the wire carried until it was silent, the telegrams that the drivers handed to their
-- queues, and the drivers.
pub record Talk : Type 0 where
  pub carried : List ℕ
  pub first_queued : List Telegram
  pub second_queued : List Telegram
  pub first : Ebus
  pub second : Ebus

-- The wire holds some bytes; `none` is that more than so many bytes were needed, or an access
-- outside a buffer.
unfoldable pub converse : ℕ → List ℕ → Ebus → Ebus → Option Talk
unfolding process_received_char queued
converse fuel [] a b =
    some (record { carried = []; first_queued = []; second_queued = []; first = a; second = b })
converse zero (byte ∷ rest) a b = none
converse (suc fuel) (byte ∷ rest) a b = do
  (a', sent_first) ← process_received_char nothing_queued byte a
  (b', sent_second) ← process_received_char nothing_queued byte b
  later ← converse fuel (rest ++ (on_wire sent_first ++ on_wire sent_second)) a' b'
  some (record later {
    carried = byte ∷ later.carried;
    first_queued = queued sent_first ++ later.first_queued;
    second_queued = queued sent_second ++ later.second_queued;
  })

-- With enough fuel, that is what happens.
abbrev pub Talks : List ℕ → Ebus → Ebus → Talk → Type 0
Talks line a b talk = (fuel : ℕ) → length talk.carried ≤ fuel → converse fuel line a b ≡ some talk

pub Talks-silent :
    (a b : Ebus)
    → Talks [] a b
        (record { carried = []; first_queued = []; second_queued = []; first = a; second = b })
unfolding converse
Talks-silent a b fuel h = refl

-- One byte.
pub Talks-byte :
    (byte : ℕ) (rest said : List ℕ) (a a' b b' : Ebus) (sent_first sent_second : List Effect)
    (talk : Talk)
    → process_received_char nothing_queued byte a ≡ some (a', sent_first)
    → process_received_char nothing_queued byte b ≡ some (b', sent_second)
    → on_wire sent_first ++ on_wire sent_second ≡ said
    → Talks (rest ++ said) a' b' talk
    → Talks (byte ∷ rest) a b (record talk {
      carried = byte ∷ talk.carried;
      first_queued = queued sent_first ++ talk.first_queued;
      second_queued = queued sent_second ++ talk.second_queued;
    })
unfolding converse
Talks-byte byte rest said a a' b b' sent_first sent_second talk p q s more zero h =
    absurd (omega arith)
Talks-byte byte rest said a a' b b' sent_first sent_second talk p q s more (suc fuel) h =
    rw (p, q, s, more fuel (omega arith)) refl
