-- ===== src/Ebus/Closing.antt =====
-- The end of a conversation: a telegram that has ended is handed to the queue at the next SYN by
-- `process_received_char` of esphome/components/ebus/ebus.cpp, and nothing more is sent.
use esphome.Prelude.{◌≡◌, inr, refl, ap, ap₂, subst, ◌∙◌, true, false, List, [], ◌∷◌, ◌++◌, arith}
use esphome.Telegram.{
  wait_for_arbitration, end_completed, wait_for_command_ack, same_state, syn, is_finished,
}
use esphome.Telegram.Received.{Telegram, new_telegram, to_state}
use esphome.Ebus.{Ebus}
use esphome.Ebus.Process.{unescape, process_received_char}
use esphome.Ebus.Receive.{receive_char, receive_in}
use esphome.Ebus.Receiver.{receive_step, fresh_telegram}
use esphome.Ebus.Reception.{telegram_of}
use esphome.Ebus.Queueing.{queued, ended, handed_at, process_unescaped-queued}
use esphome.Ebus.Says.{nothing_queued}
use esphome.Ebus.Settled.{Hears, answer_to, answer_to-none}
use esphome.Ebus.Bus.{Talks, Talks-byte, Talks-silent}
use esphome.Ebus.Hearing.{Hearing, hears}

-- A driver that is done, at a SYN.
record Closes (t : Telegram) (e : Ebus) : Type 0 where
  hears_syn : Hears syn e (false, telegram_of wait_for_arbitration [] 0)
  hands_over : queued hears_syn.effects ≡ t ∷ []
  same_command : hears_syn.next.active_command ≡ e.active_command

closes :
    (t : Telegram) (e : Ebus)
    → Hearing false t e
    → t.state ≡ end_completed
    → e.active_command.state ≡ end_completed
    → e.queues_received_telegrams ≡ true
    → Closes t e
closes t e h over done queues = record {
  hears_syn = at_syn;
  hands_over = handed ∙ told;
  same_command = at_syn.command ∙ rw (ap (λ s. same_state s wait_for_command_ack) done) refl;
}
  where
    finished : is_finished t.base ≡ true
    finished = unfold is_finished in ground (arith, over)

    at_syn : Hears syn e (false, telegram_of wait_for_arbitration [] 0)
    at_syn =
        hears syn e false t (false, telegram_of wait_for_arbitration [] 0) h (inr done)
          (unfold receive_step unescape fresh_telegram receive_char receive_in to_state
              new_telegram in
            rw (finished) refl)

    handed : queued at_syn.effects ≡ handed_at (unescape e.in_esc syn) e
    handed =
        unfold process_received_char in
        process_unescaped-queued (unescape e.in_esc syn) nothing_queued syn e at_syn.next
          at_syn.effects at_syn.returns

    told : handed_at (unescape e.in_esc syn) e ≡ t ∷ []
    told = unfold handed_at ended unescape in rw (h.0, h.1, queues, finished) refl

-- Both drivers, at the SYN behind a telegram that has ended.
pub record Ends (t : Telegram) (a b : Ebus) : Type 0 where
  pub first : Ebus
  pub second : Ebus
  pub first_command : first.active_command ≡ a.active_command
  pub silent : Talks (syn ∷ []) a b (record {
    carried = syn ∷ [];
    first_queued = t ∷ [];
    second_queued = t ∷ [];
    first = first;
    second = second;
  })

pub ends :
    (t : Telegram) (a b : Ebus)
    → Hearing false t a
    → Hearing false t b
    → t.state ≡ end_completed
    → a.active_command.state ≡ end_completed
    → b.active_command.state ≡ end_completed
    → a.queues_received_telegrams ≡ true
    → b.queues_received_telegrams ≡ true
    → Ends t a b
ends t a b h_a h_b over done_a done_b queues_a queues_b =
    let ca = closes t a h_a over done_a queues_a in
    let cb = closes t b h_b over done_b queues_b in
    let quiet : (e : Ebus) → answer_to e (telegram_of wait_for_arbitration [] 0) ≡ [] =
      λ e. answer_to-none e (telegram_of wait_for_arbitration [] 0) (ground arith) (ground arith) in
    record {
      first = ca.hears_syn.next;
      second = cb.hears_syn.next;
      first_command = ca.same_command;
      silent =
          subst
            (λ (handed : List Telegram × List Telegram). Talks (syn ∷ []) a b (record {
              carried = syn ∷ [];
              first_queued = handed.0;
              second_queued = handed.1;
              first = ca.hears_syn.next;
              second = cb.hears_syn.next;
            }))
            (ap₂ (λ x y. (x, y)) (ap (λ ts. ts ++ []) ca.hands_over)
              (ap (λ ts. ts ++ []) cb.hands_over))
            (Talks-byte syn [] [] a ca.hears_syn.next b cb.hears_syn.next ca.hears_syn.effects
              cb.hears_syn.effects _ ca.hears_syn.returns cb.hears_syn.returns
              (ap₂ (◌++◌) (ca.hears_syn.sent ∙ quiet a) (cb.hears_syn.sent ∙ quiet b))
              (Talks-silent ca.hears_syn.next cb.hears_syn.next));
    }
