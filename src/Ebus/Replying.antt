-- ===== src/Ebus/Replying.antt =====
-- The second half of a conversation of two drivers of esphome/components/ebus/ebus.cpp: the answer, its
-- acknowledgement, and the SYN behind that.
use mathlib.Core.List.{append-nil}
use esphome.Prelude.{
  ℕ, ◌+◌, ◌*◌, ◌≤◌, ◌<◌, ◌≡◌, ◌≢◌, inr, refl, ap, ap₂, sym, subst, ◌∙◌, true, false, List, [], ◌∷◌,
  ◌++◌, length, some, arith, All, All-append, ==_iff,
}
use esphome.Telegram.{
  TelegramState, wait_for_request_ack, wait_for_response_ack, end_completed, syn, ack,
  is_response_expected, is_finished, get_qq,
}
use esphome.Telegram.Received.{Telegram, to_state, is_response_valid}
use esphome.Telegram.Command.{SendCommand, command_to_state}
use esphome.Telegram.Frame.{request_of}
use esphome.Elf.{crc8_array}
use esphome.Ebus.{Ebus, wire_bytes}
use esphome.Ebus.Process.{unescape}
use esphome.Ebus.Receive.{receive_char, receive_in, after_response_ack}
use esphome.Ebus.Receiver.{receive_step, fresh_telegram}
use esphome.Ebus.Wire.{wire, receive_bytes}
use esphome.Ebus.Reception.{telegram_of}
use esphome.Ebus.Response.{answering}
use esphome.Ebus.Heard.{answer-ReplyIsHeard}
use esphome.Ebus.Replies.{answer, send_reply-answer}
use esphome.Ebus.Ranks.{IsNoSyn, rank, awaits}
use esphome.Ebus.Settled.{Hears, after_byte, answer_to, answer_to-none}
use esphome.Ebus.Bus.{Talk, Talks}
use esphome.Ebus.Hearing.{Hearing, IsGone, hears, Talks-quiet_byte, IsGone-IsSettled}
use esphome.Ebus.Stretch.{IsAhead, Stretch, stretch_all, going}
use esphome.Ebus.Answered.{
  IsSent, after_bytes-IsSent, after_bytes-completed, after_byte-ack, wire-IsNoSyn,
  wire_bytes-IsNoSyn, answer_to-response, answer_to-other_response, IsSent-IsGone,
}
use esphome.Ebus.Closing.{Ends, ends}

answer-IsNoSyn : (reply : List ℕ) → length reply ≤ 15 → All IsNoSyn (answer reply)
answer-IsNoSyn reply few = (
  omega arith,
  (
    omega arith,
    All-append IsNoSyn (wire reply) (wire_bytes (crc8_array (length reply ∷ wire reply)) true)
        (wire-IsNoSyn reply) (wire_bytes-IsNoSyn (crc8_array (length reply ∷ wire reply))),
  ),
)

module _ (request : List ℕ) (request_crc : ℕ) (reply : List ℕ)
    (expected : is_response_expected (request_of wait_for_request_ack request request_crc) ≡ true)
    (some_bytes : 0 < length reply) (few : length reply ≤ 15)
    (same_crc : crc8_array (length reply ∷ wire reply) ≡ crc8_array (length reply ∷ reply)) where
  abbrev asked : Telegram
  asked = telegram_of wait_for_request_ack request request_crc

  -- The telegram with the reply, in a state.
  abbrev pub replied : TelegramState → Telegram
  replied s =
      answering s request request_crc
        (length reply ∷ (reply ++ crc8_array (length reply ∷ wire reply) ∷ []))
        (crc8_array (length reply ∷ reply))

  valid : is_response_valid (replied wait_for_response_ack) ≡ true
  valid =
      (answer-ReplyIsHeard request reply request_crc expected some_bytes few).valid
      ∙ (==_iff (crc8_array (length reply ∷ wire reply)) (crc8_array (length reply ∷ reply))).1
          same_crc

  received : receive_bytes (answer reply) false asked ≡ some (false, replied wait_for_response_ack)
  received =
      ap (λ bytes. receive_bytes bytes false asked)
        (sym (send_reply-answer reply some_bytes (omega (arith, few))))
      ∙ (answer-ReplyIsHeard request reply request_crc expected some_bytes few).heard

  ack_step :
      receive_step false (replied wait_for_response_ack) ack ≡ some (false, replied end_completed)
  unfolding receive_step receive_char receive_in unescape fresh_telegram is_finished to_state
      after_response_ack
  ack_step = refl

  response-IsAhead : IsAhead 5 (replied wait_for_response_ack)
  response-IsAhead = record { on_the_way = omega arith; quiet = quiet }
    where
      quiet : (s : TelegramState) → 5 ≤ rank s * 2 → rank s * 2 + awaits s ≤ 8 → awaits s ≡ 0
      quiet wait_for_request_ack low high = absurd (omega (arith, low))
      quiet wait_for_response_ack low high = absurd (omega (arith, high))
      quiet _ low high = refl

  module _ (a b : Ebus) (c : SendCommand) (h_a : Hearing false asked a)
      (h_b : Hearing false asked b) (sent : IsSent c a.active_command)
      (done : b.active_command.state ≡ end_completed)
      (own : get_qq (replied wait_for_response_ack).base ≡ a.primary_address)
      (other : get_qq (replied wait_for_response_ack).base ≢ b.primary_address)
      (queues_a : a.queues_received_telegrams ≡ true)
      (queues_b : b.queues_received_telegrams ≡ true) where
    -- The answer goes by, is acknowledged, and both hand the telegram to their queues.
    pub record Replied : Type 0 where
      pub first : Ebus
      pub second : Ebus
      pub first_command : first.active_command ≡ command_to_state end_completed c
      pub silent : Talks (answer reply) a b (record {
        carried = answer reply ++ ack ∷ syn ∷ [];
        first_queued = replied end_completed ∷ [];
        second_queued = replied end_completed ∷ [];
        first = first;
        second = second;
      })

    went_by : Stretch (answer reply) [] (replied wait_for_response_ack) a b
    went_by =
        stretch_all 5 (replied wait_for_response_ack) response-IsAhead [] (answer reply) a b false
          asked (omega arith) h_a h_b (IsSent-IsGone c a.active_command sent) (inr done)
          (answer-IsNoSyn reply few) (omega arith) received

    command_a : IsSent c went_by.first.active_command
    command_a =
        subst (IsSent c) (sym went_by.first_command)
          (after_bytes-IsSent (answer reply) c a.active_command sent)

    command_b : went_by.second.active_command ≡ b.active_command
    command_b = went_by.second_command ∙ after_bytes-completed (answer reply) b.active_command done

    at_ack :
        (e : Ebus)
        → Hearing false (replied wait_for_response_ack) e
        → IsGone e.active_command
        → Hears ack e (false, replied end_completed)
    at_ack e h gone =
        hears ack e false (replied wait_for_response_ack) (false, replied end_completed) h
          (IsGone-IsSettled ack e.active_command (omega arith) gone) ack_step

    at_ack_a : Hears ack went_by.first (false, replied end_completed)
    at_ack_a =
        at_ack went_by.first went_by.first_hears
          (IsSent-IsGone c went_by.first.active_command command_a)

    at_ack_b : Hears ack went_by.second (false, replied end_completed)
    at_ack_b = at_ack went_by.second went_by.second_hears (inr (ap (λ c. c.state) command_b ∙ done))

    completed_a : at_ack_a.next.active_command ≡ command_to_state end_completed c
    completed_a = at_ack_a.command ∙ after_byte-ack c went_by.first.active_command command_a

    completed_b : at_ack_b.next.active_command ≡ b.active_command
    completed_b =
        at_ack_b.command
        ∙ ap (after_byte ack) command_b
        ∙ after_bytes-completed (ack ∷ []) b.active_command done

    ended : Ends (replied end_completed) at_ack_a.next at_ack_b.next
    unfolding command_to_state
    ended =
        ends (replied end_completed) at_ack_a.next at_ack_b.next at_ack_a.received at_ack_b.received
          refl (ap (λ c. c.state) completed_a) (ap (λ c. c.state) completed_b ∙ done)
          (at_ack_a.same_driver.2 ∙ went_by.same_first.2 ∙ queues_a)
          (at_ack_b.same_driver.2 ∙ went_by.same_second.2 ∙ queues_b)

    -- The acknowledgement, behind the answer.
    acknowledged : Talk
    acknowledged = record {
      carried = ack ∷ syn ∷ [];
      first_queued = replied end_completed ∷ [];
      second_queued = replied end_completed ∷ [];
      first = ended.first;
      second = ended.second;
    }

    silent_behind : Talks (ack ∷ syn ∷ []) went_by.first went_by.second acknowledged
    unfolding acknowledged
    silent_behind =
        let way : is_finished (replied wait_for_response_ack).base ≡ false =
          going (replied wait_for_response_ack) (omega arith) in
        let quiet : (e : Ebus) → answer_to e (replied end_completed) ≡ [] =
          λ e. answer_to-none e (replied end_completed) (ground arith) (ground arith) in
        Talks-quiet_byte ack (syn ∷ []) [] [] went_by.first at_ack_a.next went_by.second
          at_ack_b.next at_ack_a.effects at_ack_b.effects _ at_ack_a.returns at_ack_b.returns
          (ap (λ t. is_finished t.base) went_by.first_hears.1 ∙ way)
          (ap (λ t. is_finished t.base) went_by.second_hears.1 ∙ way)
          (at_ack_a.sent ∙ quiet went_by.first) (at_ack_b.sent ∙ quiet went_by.second) ended.silent

    pub replies : Replied
    unfolding acknowledged
    replies = record {
      first = ended.first;
      second = ended.second;
      first_command = ended.first_command ∙ completed_a;
      silent =
          subst
            (λ line.
              Talks line a b (record acknowledged { carried = answer reply ++ ack ∷ syn ∷ [] }))
            (append-nil (answer reply))
            (went_by.goes_on acknowledged (
              subst (λ bytes. Talks bytes went_by.first went_by.second acknowledged)
                (sym (
                  ap₂ (◌++◌) (answer_to-response a (replied wait_for_response_ack) refl own valid)
                    (answer_to-other_response b (replied wait_for_response_ack) refl other)))
                silent_behind));
    }
