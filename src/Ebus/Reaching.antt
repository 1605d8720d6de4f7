-- ===== src/Ebus/Reaching.antt =====
-- Runs of `process_received_char` of esphome/components/ebus/ebus.cpp: what they reach, and the parts of
-- a command that are sent on the way.
use esphome.Prelude.{ℕ, ◌<◌, ◌≡◌, refl, subst, List, [], ◌∷◌, ◌++◌, Option, some, ◌>>=◌}
use esphome.Telegram.Command.{SendCommand}
use esphome.Ebus.{Ebus, Effect}
use esphome.Ebus.Process.{process_received_char}
use esphome.Ebus.Safety.{IsReceiving}
use esphome.Ebus.Invariant.{process_received_char-Processes}
use esphome.Ebus.Phases.{Then}
use esphome.Ebus.Sends.{InOrder, SentBy, InOrder-behind, InOrder-step}

-- One received byte after the other, with what `dequeue_command_` would answer at any of them.
unfoldable pub run : Option (Option SendCommand) → List ℕ → Ebus → Option (Ebus × List Effect)
run dequeue [] e = some (e, [])
run dequeue (byte ∷ rest) e = do
  (next, effects) ← process_received_char dequeue byte e
  (last, more) ← run dequeue rest next
  some (last, effects ++ more)

-- There is a result, and it has a property.
pub record Reaches (P : Ebus → Type 0) (result : Option (Ebus × List Effect)) : Type 0 where
  pub final : Ebus
  pub effects : List Effect
  pub returns : result ≡ some (final, effects)
  pub holds : P final

-- A run's first byte, then the rest.
pub run-step :
    (P Q : Ebus → Type 0) (dequeue : Option (Option SendCommand)) (byte : ℕ) (rest : List ℕ)
    (e : Ebus)
    → byte < 256
    → IsReceiving e.receiving_telegram
    → Then P (process_received_char dequeue byte e)
    → ((next : Ebus)
        → IsReceiving next.receiving_telegram
        → P next
        → Reaches Q (run dequeue rest next))
    → Reaches Q (run dequeue (byte ∷ rest) e)
unfolding run
run-step P Q dequeue byte rest e h v p more =
    let first = process_received_char-Processes dequeue byte e h v in
    let others = more first.next first.valid (subst (Then P) first.returns p) in
    record {
      final = others.final;
      effects = first.effects ++ others.effects;
      returns = rw (first.returns, others.returns) refl;
      holds = others.holds;
    }

-- There is a result with a property, and the parts are sent on the way to it, in order.
pub record Sends (parts : List (List Effect)) (P : Ebus → Type 0)
    (result : Option (Ebus × List Effect)) : Type 0 where
  pub reached : Reaches P result
  pub in_order : InOrder parts reached.effects

-- A run's first byte that sends a part, then the rest.
pub sending_step :
    (Q : Ebus → Type 0) (dequeue : Option (Option SendCommand)) (part : List Effect)
    (parts : List (List Effect)) (P : Ebus → Type 0) (byte : ℕ) (rest : List ℕ) (e : Ebus)
    → byte < 256
    → IsReceiving e.receiving_telegram
    → Then P (process_received_char dequeue byte e)
    → SentBy part (process_received_char dequeue byte e)
    → ((next : Ebus)
        → IsReceiving next.receiving_telegram
        → P next
        → Sends parts Q (run dequeue rest next))
    → Sends (part ∷ parts) Q (run dequeue (byte ∷ rest) e)
unfolding run
sending_step Q dequeue part parts P byte rest e h v p sent more =
    let first = process_received_char-Processes dequeue byte e h v in
    let others = more first.next first.valid (subst (Then P) first.returns p) in
    record {
      reached = record {
        final = others.reached.final;
        effects = first.effects ++ others.reached.effects;
        returns = rw (first.returns, others.reached.returns) refl;
        holds = others.reached.holds;
      };
      in_order =
          InOrder-step part parts first.effects others.reached.effects
            (subst (SentBy part) first.returns sent) others.in_order;
    }

-- A byte of which nothing is said, then the rest.
pub waiting_step :
    (Q : Ebus → Type 0) (dequeue : Option (Option SendCommand)) (parts : List (List Effect))
    (P : Ebus → Type 0) (byte : ℕ) (rest : List ℕ) (e : Ebus)
    → byte < 256
    → IsReceiving e.receiving_telegram
    → Then P (process_received_char dequeue byte e)
    → ((next : Ebus)
        → IsReceiving next.receiving_telegram
        → P next
        → Sends parts Q (run dequeue rest next))
    → Sends parts Q (run dequeue (byte ∷ rest) e)
unfolding run
waiting_step Q dequeue parts P byte rest e h v p more =
    let first = process_received_char-Processes dequeue byte e h v in
    let others = more first.next first.valid (subst (Then P) first.returns p) in
    record {
      reached = record {
        final = others.reached.final;
        effects = first.effects ++ others.reached.effects;
        returns = rw (first.returns, others.reached.returns) refl;
        holds = others.reached.holds;
      };
      in_order = InOrder-behind parts first.effects others.reached.effects others.in_order;
    }
