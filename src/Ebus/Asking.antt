-- ===== src/Ebus/Asking.antt =====
-- The first half of a conversation of two drivers of esphome/components/ebus/ebus.cpp: the SYN, and the
-- request.
use esphome.Prelude.{
  ℕ, ◌+◌, ◌*◌, ◌≤◌, ◌≡◌, ◌≢◌, inl, inr, refl, ap, ap₂, sym, subst, ◌∙◌, true, false, ◌==◌, ◌&&◌,
  List, [], ◌∷◌, ◌++◌, length, some, arith, All, IsByte,
}
use esphome.Telegram.{
  TelegramState, wait_for_send, wait_for_arbitration, wait_for_request_data, wait_for_request_ack,
  wait_for_response_ack, wait_for_command_ack, end_completed, syn, esc, get_zz, get_qq,
  broadcast_address, is_ack_expected, get_type, is_finished,
}
use esphome.Telegram.Received.{Telegram, new_telegram, to_state}
use esphome.Telegram.Command.{SendCommand, command_to_state}
use esphome.Telegram.Sent.{request_body, request_frame}
use esphome.Elf.{is_primary, crc8_array, crc8_from}
use esphome.Ebus.{Ebus, wire_bytes, uart_send_char, uart_send_remaining_request_part}
use esphome.Ebus.Process.{unescape}
use esphome.Ebus.Receive.{receive_char, receive_in}
use esphome.Ebus.Receiver.{receive_step, fresh_telegram}
use esphome.Ebus.Wire.{wire, receive_bytes}
use esphome.Ebus.Reception.{telegram_of, first_byte, address_char, receive_bytes-request}
use esphome.Ebus.Sending.{
  on_wire, on_wire-map, command_of, uart_send_remaining_request_part-command,
}
use esphome.Ebus.Settled.{SameDriver, Hears, after_byte, answer_to, answer_to-none, answer_to-same}
use esphome.Ebus.Bus.{Talk, Talks}
use esphome.Ebus.Hearing.{Hearing, after_bytes, SameDriver-trans, hears, Talks-quiet_byte}
use esphome.Ebus.Stretch.{IsAhead, Stretch, stretch_all, going}
use esphome.Ebus.Answered.{
  IsSent, after_bytes-IsSent, after_bytes-completed, wire-IsNoSyn, length-wire_pos,
}
use esphome.Ebus.Opening.{Speaks, syn-Speaks, address-Speaks}
use esphome.Ebus.Ranks.{rank, awaits}

-- A driver that waits for the next SYN to send the command `c`.
pub record IsCaller (c : SendCommand) (a : Ebus) : Type 0 where
  pub command : a.active_command ≡ c
  pub low : a.lock_counter ≤ 1
  pub quiet : a.char_count_since_last_syn ≢ 1
  pub fresh : Hearing false new_telegram a
  pub queues : a.queues_received_telegrams ≡ true

-- A driver that has nothing to send.
pub record IsIdle (b : Ebus) : Type 0 where
  pub done : b.active_command.state ≡ end_completed
  pub fresh : Hearing false new_telegram b
  pub queues : b.queues_received_telegrams ≡ true

module _ (qq zz pb sb : ℕ) (bytes : List ℕ) (short : length bytes ≤ 15) (all : All IsByte bytes)
    (plain : (qq ≢ syn) × (qq ≢ esc))
    (secondary : (is_primary zz ≡ false) × (zz ≢ esc) × (zz ≢ broadcast_address)) where
  abbrev pub crc : ℕ
  crc = crc8_array (request_body qq zz pb sb bytes)

  abbrev pub heard : Telegram
  heard = telegram_of wait_for_request_ack (request_frame qq zz pb sb bytes) crc

  abbrev pub sending : TelegramState → SendCommand
  sending s = command_of qq zz pb sb bytes 0 s

  -- The request without its first byte.
  abbrev pub rest_line : List ℕ
  rest_line = wire (zz ∷ pb ∷ sb ∷ length bytes ∷ (bytes ++ crc ∷ []))

  abbrev at_syn : Telegram
  at_syn = telegram_of wait_for_arbitration [] 0

  abbrev at_address : Telegram
  at_address = telegram_of wait_for_request_data (qq ∷ []) (crc8_from 0 (qq ∷ []))

  rest_received : receive_bytes rest_line false at_address ≡ some (false, heard)
  rest_received =
      sym (first_byte qq rest_line)
      ∙ receive_bytes-request qq zz pb sb crc bytes new_telegram (inl refl) short
      ∙ rw (no_broadcast) refl
    where
      no_broadcast : (zz == broadcast_address) ≡ false
      no_broadcast = ground (arith, secondary.2)

  rest_sent : on_wire (uart_send_remaining_request_part (sending wait_for_arbitration)) ≡ rest_line
  rest_sent =
      ap on_wire (
        uart_send_remaining_request_part-command qq zz pb sb bytes wait_for_arbitration 0 short all)
      ∙ on_wire-map (zz ∷ pb ∷ sb ∷ length bytes ∷ (bytes ++ crc ∷ []))

  syn_received : receive_char syn syn (fresh_telegram new_telegram) ≡ some at_syn
  unfolding receive_char receive_in fresh_telegram new_telegram is_finished to_state
  syn_received = refl

  syn_step : receive_step false new_telegram syn ≡ some (false, at_syn)
  unfolding receive_step receive_char receive_in unescape fresh_telegram new_telegram is_finished
      to_state
  syn_step = refl

  address_received : receive_char qq qq (fresh_telegram at_syn) ≡ some at_address
  unfolding fresh_telegram is_finished
  address_received = address_char qq plain.0

  address_step : receive_step false at_syn qq ≡ some (false, at_address)
  unfolding receive_step unescape
  address_step = rw (no_escape, address_received) refl
    where
      no_escape : (qq == esc && true) ≡ false
      no_escape = ground (arith, plain.1)

  expected : is_ack_expected (sending wait_for_arbitration).base ≡ true
  unfolding is_ack_expected get_type get_zz
  expected = ground (arith, secondary.0, secondary.1, secondary.2)

  address_sent : on_wire (uart_send_char (get_qq (sending wait_for_send).base) ∷ []) ≡ qq ∷ []
  unfolding uart_send_char wire_bytes get_qq
  address_sent = ground (arith, plain.0, plain.1)

  request-IsAhead : IsAhead 0 heard
  request-IsAhead = record { on_the_way = omega arith; quiet = quiet }
    where
      quiet : (s : TelegramState) → 0 ≤ rank s * 2 → rank s * 2 + awaits s ≤ 4 → awaits s ≡ 0
      quiet wait_for_request_ack low high = absurd (omega (arith, high))
      quiet wait_for_response_ack low high = absurd (omega (arith, high))
      quiet _ low high = refl

  module _ (a b : Ebus) (caller : IsCaller (sending wait_for_send) a) (idle : IsIdle b) where
    -- The request has gone by, and both have heard it.
    pub record Asked : Type 0 where
      pub first : Ebus
      pub second : Ebus
      pub first_hears : Hearing false heard first
      pub second_hears : Hearing false heard second
      pub same_first : SameDriver a first
      pub same_second : SameDriver b second
      pub first_command : IsSent (sending wait_for_send) first.active_command
      pub second_command : second.active_command ≡ b.active_command
      pub goes_on :
          (talk : Talk)
          → Talks (answer_to a heard ++ answer_to b heard) first second talk
          → Talks (syn ∷ []) a b (record talk { carried = syn ∷ qq ∷ (rest_line ++ talk.carried) })

    new_going : is_finished new_telegram.base ≡ false
    new_going = unfold is_finished new_telegram in refl

    caller_syn :
        Speaks syn a at_syn wait_for_arbitration
          (on_wire (uart_send_char (get_qq (sending wait_for_send).base) ∷ []))
    unfolding command_to_state get_qq
    caller_syn =
        syn-Speaks a at_syn (sending wait_for_send) caller.command refl caller.low caller.quiet
          caller.fresh.0 (rw (caller.fresh.1) syn_received) refl

    callee_syn : Hears syn b (false, at_syn)
    callee_syn = hears syn b false new_telegram (false, at_syn) idle.fresh (inr idle.done) syn_step

    started : caller_syn.next.active_command ≡ sending wait_for_arbitration
    unfolding command_to_state get_qq
    started = caller_syn.command ∙ ap (command_to_state wait_for_arbitration) caller.command

    callee_idle : callee_syn.next.active_command ≡ b.active_command
    callee_idle = callee_syn.command ∙ after_bytes-completed (syn ∷ []) b.active_command idle.done

    caller_address :
        Speaks qq caller_syn.next at_address wait_for_command_ack
          (on_wire (uart_send_remaining_request_part (sending wait_for_arbitration)))
    unfolding command_to_state get_qq
    caller_address =
        address-Speaks caller_syn.next at_address (sending wait_for_arbitration) started refl
          expected plain.1 caller_syn.received.0 (rw (caller_syn.received.1) address_received) refl

    callee_address : Hears qq callee_syn.next (false, at_address)
    unfolding command_to_state get_qq
    callee_address =
        hears qq callee_syn.next false at_syn (false, at_address) callee_syn.received
          (inr (ap (λ c. c.state) callee_idle ∙ idle.done)) address_step

    sent_rest : caller_address.next.active_command ≡ sending wait_for_command_ack
    unfolding command_to_state get_qq
    sent_rest = caller_address.command ∙ ap (command_to_state wait_for_command_ack) started

    callee_idle_still : callee_address.next.active_command ≡ b.active_command
    callee_idle_still =
        callee_address.command
        ∙ ap (after_byte qq) callee_idle
        ∙ after_bytes-completed (qq ∷ []) b.active_command idle.done

    same_caller : SameDriver a caller_address.next
    same_caller =
        SameDriver-trans a caller_syn.next caller_address.next caller_syn.same_driver
          caller_address.same_driver

    same_callee : SameDriver b callee_address.next
    same_callee =
        SameDriver-trans b callee_syn.next callee_address.next callee_syn.same_driver
          callee_address.same_driver

    went_by : Stretch rest_line [] heard caller_address.next callee_address.next
    unfolding command_to_state get_qq
    went_by =
        stretch_all 0 heard request-IsAhead [] rest_line caller_address.next callee_address.next
          false at_address (length-wire_pos zz (pb ∷ sb ∷ length bytes ∷ (bytes ++ crc ∷ [])))
          caller_address.received callee_address.received (inl (ap (λ c. c.state) sent_rest))
          (inr (ap (λ c. c.state) callee_idle_still ∙ idle.done))
          (wire-IsNoSyn (zz ∷ pb ∷ sb ∷ length bytes ∷ (bytes ++ crc ∷ []))) (omega arith)
          rest_received

    pub asks : Asked
    unfolding command_to_state get_qq
    asks = record {
      first = went_by.first;
      second = went_by.second;
      first_hears = went_by.first_hears;
      second_hears = went_by.second_hears;
      same_first =
          SameDriver-trans a caller_address.next went_by.first same_caller went_by.same_first;
      same_second =
          SameDriver-trans b callee_address.next went_by.second same_callee went_by.same_second;
      first_command = subst (IsSent (sending wait_for_send)) (sym went_by.first_command) (
          after_bytes-IsSent rest_line (sending wait_for_send) caller_address.next.active_command
            (inl sent_rest));
      second_command =
          went_by.second_command
          ∙ ap (after_bytes rest_line) callee_idle_still
          ∙ after_bytes-completed rest_line b.active_command idle.done;
      goes_on = λ talk said.
          Talks-quiet_byte syn [] (qq ∷ []) [] a caller_syn.next b callee_syn.next
            caller_syn.effects callee_syn.effects _ caller_syn.returns callee_syn.returns
            (ap (λ t. is_finished t.base) caller.fresh.1 ∙ new_going)
            (ap (λ t. is_finished t.base) idle.fresh.1 ∙ new_going) (caller_syn.sent ∙ address_sent)
            (callee_syn.sent ∙ answer_to-none b at_syn (ground arith) (ground arith))
            (Talks-quiet_byte qq [] rest_line [] caller_syn.next caller_address.next callee_syn.next
              callee_address.next caller_address.effects callee_address.effects
              (record talk { carried = rest_line ++ talk.carried }) caller_address.returns
              callee_address.returns
              (ap (λ t. is_finished t.base) caller_syn.received.1 ∙ going at_syn (omega arith))
              (ap (λ t. is_finished t.base) callee_syn.received.1 ∙ going at_syn (omega arith))
              (caller_address.sent ∙ rest_sent)
              (callee_address.sent
                ∙ answer_to-none callee_syn.next at_address (ground arith) (ground arith))
              (went_by.goes_on talk (
                subst (λ bytes. Talks bytes went_by.first went_by.second talk)
                  (sym (
                    ap₂ (◌++◌) (answer_to-same a caller_address.next heard same_caller)
                      (answer_to-same b callee_address.next heard same_callee)))
                  said)));
    }
