-- ===== src/Ebus/Failure.antt =====
-- A command that loses every arbitration fails: runs of `process_received_char` of
-- esphome/components/ebus/ebus.cpp.
use esphome.Prelude.{
  ℕ, zero, suc, ◌+◌, ◌-◌, ◌<◌, ◌≡◌, ◌≢◌, refl, ap, subst, ◌∙◌, false, ◌==◌, if◌then◌else◌, List, [],
  ◌∷◌, Option, arith, u8,
}
use esphome.Elf.{get_priority_class}
use esphome.Telegram.{wait_for_send, wait_for_arbitration, end_send_failed, syn, esc, get_qq}
use esphome.Telegram.Command.{SendCommand, command_to_state}
use esphome.Ebus.{Ebus}
use esphome.Ebus.Attempts.{allowed_tries}
use esphome.Ebus.Process.{process_received_char}
use esphome.Ebus.Safety.{IsReceiving}
use esphome.Ebus.Phases.{Then, Phase, Phase-state}
use esphome.Ebus.Steps.{syn-Starts}
use esphome.Ebus.Reaching.{run, Reaches, run-step}
use esphome.Ebus.Losses.{Counts, byte-Counts, Then-and, tried, after_loss, byte-Loses, byte-Idles}

-- So many attempts and one more: a SYN and the byte of the participant that wins, and one more of its
-- bytes before the next SYN.
abbrev pub attempts_lost : ℕ → ℕ → ℕ → List ℕ
attempts_lost winner next zero = syn ∷ winner ∷ []
attempts_lost winner next (suc left) = syn ∷ winner ∷ next ∷ attempts_lost winner next left

spent-Fails :
    (max_tries : ℕ) (c : SendCommand)
    → 0 ≡ allowed_tries max_tries - c.tries_count
    → after_loss max_tries c ≡ end_send_failed
unfolding allowed_tries
spent-Fails max_tries c h = ground arith

more-Waits :
    (max_tries left : ℕ) (c : SendCommand)
    → suc left ≡ allowed_tries max_tries - c.tries_count
    → (after_loss max_tries c ≡ wait_for_send)
      × (left ≡ allowed_tries max_tries - u8 (c.tries_count + 1))
unfolding allowed_tries
more-Waits max_tries left c h = ground arith

module _ (dequeue : Option (Option SendCommand)) (max_lock max_tries winner next : ℕ)
    (w : winner < 256) (ws : winner ≢ syn) (we : winner ≢ esc) (n : next < 256) (ns : next ≢ syn)
    (ne : next ≢ esc) where
  abbrev Failed : Ebus → Type 0
  Failed final = final.active_command.state ≡ end_send_failed

  -- The command is on the bus, and no other byte since the SYN.
  abbrev Started : SendCommand → Ebus → Type 0
  Started c e = Phase wait_for_arbitration c 0 max_lock e × Counts 0 max_tries e

  -- The arbitration is lost, after one byte.
  abbrev Lost : SendCommand → Ebus → Type 0
  Lost c e = Phase (after_loss max_tries c) (tried c) 0 max_lock e × Counts 1 max_tries e

  -- It waits for the next attempt.
  abbrev Waiting : SendCommand → Ebus → Type 0
  Waiting c e = Phase wait_for_send c 0 max_lock e × Counts 2 max_tries e

  begins :
      (c : SendCommand) (e : Ebus)
      → Phase wait_for_send c 0 max_lock e
      → e.char_count_since_last_syn ≢ 1
      → e.max_tries ≡ max_tries
      → Then (Started c) (process_received_char dequeue syn e)
  begins c e h quiet same =
      Then-and _ _ (process_received_char dequeue syn e) (syn-Starts dequeue h (omega arith) quiet)
        (subst (λ m. Then (Counts 0 m) (process_received_char dequeue syn e)) same
          (byte-Counts dequeue e syn h.closed (omega arith)))

  counted :
      (byte : ℕ) (e : Ebus) (before : ℕ)
      → e.in_esc ≡ false
      → byte ≢ syn
      → byte ≢ esc
      → Counts before max_tries e
      → Then (Counts (u8 (before + 1)) max_tries) (process_received_char dequeue byte e)
  counted byte e before closed s x p =
      let one_more : (if byte == syn then 0 else u8 (e.char_count_since_last_syn + 1))
          ≡ u8 (before + 1) =
        ground (arith, s, p.0) in
      subst (λ n. Then (Counts n max_tries) (process_received_char dequeue byte e)) one_more
        (subst
          (λ m.
            Then (Counts (if byte == syn then 0 else u8 (e.char_count_since_last_syn + 1)) m)
              (process_received_char dequeue byte e))
          p.1 (byte-Counts dequeue e byte closed x))

  loses :
      (c : SendCommand) (e : Ebus)
      → Started c e
      → winner ≢ get_qq c.base
      → (get_priority_class winner == get_priority_class (get_qq c.base)) ≡ false
      → Then (Lost c) (process_received_char dequeue winner e)
  loses c e p q other =
      Then-and _ _ (process_received_char dequeue winner e)
        (subst
          (λ m.
            Then (Phase (after_loss m c) (tried c) 0 max_lock)
              (process_received_char dequeue winner e))
          p.1.1 (byte-Loses dequeue e p.0 winner ws we q other))
        (counted winner e 0 p.0.closed ws we p.1)

  all_lost :
      (left : ℕ) (c : SendCommand) (e : Ebus)
      → left ≡ allowed_tries max_tries - c.tries_count
      → winner ≢ get_qq c.base
      → (get_priority_class winner == get_priority_class (get_qq c.base)) ≡ false
      → IsReceiving e.receiving_telegram
      → Phase wait_for_send c 0 max_lock e
      → e.char_count_since_last_syn ≢ 1
      → e.max_tries ≡ max_tries
      → Reaches
          (λ final. final.active_command.state ≡ end_send_failed)
          (run dequeue (attempts_lost winner next left) e)
  all_lost zero c e spent q other v h quiet same =
      run-step (Started c) Failed dequeue syn (winner ∷ []) e (omega arith) v
        (begins c e h quiet same)
        (λ e1 v1 p1.
          run-step (Lost c) Failed dequeue winner [] e1 w v1 (loses c e1 p1 q other) (λ e2 v2 p2.
            record {
              final = e2;
              effects = [];
              returns = unfold run in refl;
              holds = Phase-state p2.0 ∙ spent-Fails max_tries c spent;
            }))
  all_lost (suc left) c e more q other v h quiet same =
      run-step (Started c) Failed dequeue syn (winner ∷ next ∷ attempts_lost winner next left) e
        (omega arith) v (begins c e h quiet same)
        (λ e1 v1 p1.
          run-step (Lost c) Failed dequeue winner (next ∷ attempts_lost winner next left) e1 w v1
            (loses c e1 p1 q other)
            (λ e2 v2 p2.
              let again = more-Waits max_tries left c more in
              let waiting = subst (λ s. Phase s (tried c) 0 max_lock e2) again.0 p2.0 in
              run-step (Waiting (tried c)) Failed dequeue next (attempts_lost winner next left) e2 n
                v2
                (Then-and _ _ (process_received_char dequeue next e2)
                  (byte-Idles dequeue e2 waiting next ns ne)
                  (counted next e2 1 waiting.closed ns ne p2.1))
                (λ e3 v3 p3.
                  all_lost left (tried c) e3 again.1 q other v3 p3.0 (omega (arith, p3.1.0))
                    p3.1.1)))

-- A command that waits and loses every arbitration has failed after as many attempts as its tries
-- allow, and one more. In each of them the SYN is followed by the byte of another participant, of
-- another priority class, and in all but the last by one more byte; none of these is a SYN or an ESC.
-- The lock is down, no escape is open, the telegram that is received is proper, and the last SYN is
-- not just one byte away. All these bytes are processed, whatever `dequeue_command_` would answer.
pub run-Failed :
    (dequeue : Option (Option SendCommand)) (e : Ebus) (winner next : ℕ)
    → (winner < 256) × (winner ≢ syn) × (winner ≢ esc)
    → (next < 256) × (next ≢ syn) × (next ≢ esc)
    → winner ≢ get_qq e.active_command.base
    → (get_priority_class winner == get_priority_class (get_qq e.active_command.base)) ≡ false
    → e.active_command.state ≡ wait_for_send
    → e.lock_counter ≡ 0
    → e.in_esc ≡ false
    → IsReceiving e.receiving_telegram
    → e.char_count_since_last_syn ≢ 1
    → Reaches
        (λ final. final.active_command.state ≡ end_send_failed)
        (run dequeue
          (attempts_lost winner next (allowed_tries e.max_tries - e.active_command.tries_count))
          e)
run-Failed dequeue e winner next w n q other state down closed v quiet =
    all_lost dequeue e.max_lock_counter e.max_tries winner next w.0 w.1 w.2 n.0 n.1 n.2
      (allowed_tries e.max_tries - e.active_command.tries_count) e.active_command e refl q other v
      (record {
        command = unfold command_to_state in ap (λ s. command_to_state s e.active_command) state;
        locked = down;
        max_locked = refl;
        closed = closed;
      })
      quiet refl
