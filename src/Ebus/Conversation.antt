-- ===== src/Ebus/Conversation.antt =====
-- A whole conversation of two drivers of esphome/components/ebus/ebus.cpp on one wire: a command, its
-- answer, and the silence behind.
use mathlib.Core.Option.{some-injective}
use esphome.Prelude.{
  ℕ, ◌/◌, ◌^◌, ◌≤◌, ◌<◌, ◌≡◌, ◌≢◌, bit_and, u8, refl, ap, ap₂, sym, subst, ◌∙◌, true, false, List,
  [], ◌∷◌, ◌++◌, length, length-append, Option, some, arith, All, IsByte, ==_iff,
}
use esphome.Telegram.{
  wait_for_send, wait_for_request_ack, end_completed, syn, esc, ack, is_response_expected, get_type,
  get_zz, get_qq, broadcast_address,
}
use esphome.Telegram.Received.{Telegram, is_request_valid}
use esphome.Telegram.Command.{SendCommand, command_to_state, send_command}
use esphome.Telegram.Frame.{request_of}
use esphome.Telegram.Sent.{request_body, request_frame, send_command-frame}
use esphome.Elf.{to_secondary, is_primary, crc8_array}
use esphome.Elf.Address.{to_secondary-not-primary}
use esphome.Ebus.{Ebus, wire_bytes, find_reply}
use esphome.Ebus.Wire.{wire}
use esphome.Ebus.Reception.{telegram_of, is_request_valid-telegram_of}
use esphome.Ebus.Response.{answering}
use esphome.Ebus.Replies.{answer, send_reply-answer}
use esphome.Ebus.Settled.{answer_to}
use esphome.Ebus.Bus.{Talk, Talks, converse}
use esphome.Ebus.Answered.{answer_to-not_ours, answer_to-ours, length-wire_le, length-wire_bytes}
use esphome.Ebus.Sending.{command_of}
use esphome.Ebus.Asking.{IsCaller, IsIdle, Asked, asks}
use esphome.Ebus.Replying.{replies}

-- The request of a command, as a driver to whom it is addressed hears it.
abbrev pub question : ℕ → ℕ → ℕ → List ℕ → Telegram
question qq zz command bytes =
    let hi = u8 (command / 2 ^ 8) in
    let lo = bit_and command 0xFF in
    telegram_of wait_for_request_ack (request_frame qq zz hi lo bytes)
      (crc8_array (request_body qq zz hi lo bytes))

-- The same with a reply of the given bytes, as it ends.
abbrev pub exchanged : Telegram → List ℕ → Telegram
exchanged t reply =
    record (answering end_completed [] 0
      (length reply ∷ (reply ++ crc8_array (length reply ∷ wire reply) ∷ []))
      (crc8_array (length reply ∷ reply))) { base = record t.base { state = end_completed } }

-- What became of the command `c`, whose bytes are `frame`, and of the reply to the telegram `t`.
pub record Converses (c : SendCommand) (frame reply : List ℕ) (t : Telegram) (outcome : Option Talk)
    : Type 0 where
  pub talk : Talk
  pub returns : outcome ≡ some talk
  pub carried : talk.carried ≡ syn ∷ (wire frame ++ (answer reply ++ ack ∷ syn ∷ []))
  pub completed : talk.first.active_command ≡ command_to_state end_completed c
  pub first_queued : talk.first_queued ≡ exchanged t reply ∷ []
  pub second_queued : talk.second_queued ≡ exchanged t reply ∷ []

plain_wire : (byte : ℕ) → byte ≢ syn → byte ≢ esc → wire_bytes byte true ≡ byte ∷ []
unfolding wire_bytes
plain_wire byte no_syn no_esc = ground arith

-- The conversation, when the parts of the command are known.
module _ (qq pb sb : ℕ) (bytes : List ℕ) (short : length bytes ≤ 15) (all : All IsByte bytes)
    (plain : (qq ≢ syn) × (qq ≢ esc)) (a b : Ebus) (zz : ℕ)
    (usable : (is_primary zz ≡ false) × (zz ≢ esc) × (zz ≢ broadcast_address))
    (own : a.primary_address ≡ qq) (to_b : zz ≡ to_secondary b.primary_address)
    (apart : zz ≢ to_secondary qq)
    (caller : IsCaller (command_of qq zz pb sb bytes 0 wait_for_send) a) (idle : IsIdle b) where
  abbrev frame : List ℕ
  frame = request_frame qq zz pb sb bytes

  abbrev frame_crc : ℕ
  frame_crc = crc8_array (request_body qq zz pb sb bytes)

  abbrev t : Telegram
  t = telegram_of wait_for_request_ack frame frame_crc

  abbrev reply : List ℕ
  reply = find_reply b.send_response_handlers t

  asking : Asked qq zz pb sb bytes short all plain usable a b caller idle
  asking = asks qq zz pb sb bytes short all plain usable a b caller idle

  expected : is_response_expected (request_of wait_for_request_ack frame frame_crc) ≡ true
  unfolding is_response_expected get_type get_zz
  expected = ground (arith, usable.0, usable.1, usable.2)

  valid : is_request_valid t ≡ true
  valid =
      is_request_valid-telegram_of qq zz pb sb frame_crc bytes wait_for_request_ack short
        (ground arith)
      ∙ (==_iff frame_crc frame_crc).1 refl

  module _ (some_bytes : 0 < length reply) (few : length reply ≤ 15)
      (same_crc : crc8_array (length reply ∷ wire reply) ≡ crc8_array (length reply ∷ reply)) where
    answered : answer_to a t ++ answer_to b t ≡ answer reply
    unfolding get_zz
    answered = ap₂ (◌++◌) (answer_to-not_ours a t refl (λ e. apart (e ∙ ap to_secondary own))) (
        answer_to-ours b t refl to_b valid
        ∙ send_reply-answer reply some_bytes (omega (arith, few)))

    carried : List ℕ
    carried =
        syn
        ∷ qq
        ∷ (wire (zz ∷ pb ∷ sb ∷ length bytes ∷ (bytes ++ frame_crc ∷ []))
            ++ (answer reply ++ ack ∷ syn ∷ []))

    carried-le : length carried ≤ 78
    unfolding carried
    carried-le = omega (
      arith,
      short,
      few,
      length-append (wire (zz ∷ pb ∷ sb ∷ length bytes ∷ (bytes ++ frame_crc ∷ [])))
          (answer reply ++ ack ∷ syn ∷ []),
      length-append (answer reply) (ack ∷ syn ∷ []),
      length-wire_le (zz ∷ pb ∷ sb ∷ length bytes ∷ (bytes ++ frame_crc ∷ [])),
      length-append bytes (frame_crc ∷ []),
      length-append (wire reply) (wire_bytes (crc8_array (length reply ∷ wire reply)) true),
      length-wire_le reply,
      length-wire_bytes (crc8_array (length reply ∷ wire reply)),
    )

    pub known-Converses :
        (fuel : ℕ)
        → 78 ≤ fuel
        → Converses
            (command_of qq zz pb sb bytes 0 wait_for_send)
            frame
            reply
            t
            (converse fuel (syn ∷ []) a b)
    unfolding carried get_qq
    known-Converses fuel enough =
        let r =
          replies frame frame_crc reply expected some_bytes few same_crc asking.first asking.second
            (command_of qq zz pb sb bytes 0 wait_for_send) asking.first_hears asking.second_hears
            asking.first_command (ap (λ c. c.state) asking.second_command ∙ idle.done)
            (sym (asking.same_first.0 ∙ own))
            (λ e. apart (to_b ∙ ap to_secondary (sym asking.same_second.0 ∙ sym e)))
            (asking.same_first.2 ∙ caller.queues) (asking.same_second.2 ∙ idle.queues) in
        let last : Talk = record {
          carried = answer reply ++ ack ∷ syn ∷ [];
          first_queued = exchanged t reply ∷ [];
          second_queued = exchanged t reply ∷ [];
          first = r.first;
          second = r.second;
        } in
        record {
          talk = record last { carried = carried };
          returns =
              asking.goes_on last
                (subst (λ bytes. Talks bytes asking.first asking.second last) (sym answered)
                  r.silent)
                fuel (omega (arith, enough, carried-le));
          carried = rw (plain_wire qq plain.0 plain.1) refl;
          completed = r.first_command;
          first_queued = refl;
          second_queued = refl;
        }

false-true : false ≢ true
false-true e = cc

primary-plain : (qq : ℕ) → is_primary qq ≡ true → (qq ≢ syn) × (qq ≢ esc)
unfolding is_primary
primary-plain qq p = (
  λ e. false-true (subst (λ q. is_primary q ≡ true) e p),
  λ e. false-true (subst (λ q. is_primary q ≡ true) e p),
)

-- A driver with a command for another one on the same wire, which has nothing to send: from the next
-- SYN on, the wire carries at most 78 bytes and is silent then. These are the SYN, the request, the
-- answer with the other driver's reply, an ACK and a SYN. The command is completed, and both drivers
-- have handed one telegram to their queues: the completed one with the request and the reply. The
-- command is as its constructor builds it, with at most 15 data bytes, from the own address to the
-- other one's secondary address, which differs from the own one; both addresses are bytes and
-- primary. The lock is down, the last SYN is not just one byte away, no telegram or escape is open,
-- the callbacks for telegrams are set, and no other command is queued. The reply has 1 to 15 bytes,
-- and its CRC over the escaped bytes is that over the bytes themselves.
pub converse-Converses :
    (a b : Ebus) (c : SendCommand) (command : ℕ) (bytes reply : List ℕ) (fuel : ℕ)
    → 78 ≤ fuel
    → length bytes ≤ 15
    → All IsByte bytes
    → is_primary a.primary_address ≡ true
    → b.primary_address < 256
    → is_primary b.primary_address ≡ true
    → to_secondary b.primary_address ≢ to_secondary a.primary_address
    → send_command a.primary_address (to_secondary b.primary_address) command bytes ≡ some c
    → IsCaller c a
    → IsIdle b
    → find_reply b.send_response_handlers
        (question a.primary_address (to_secondary b.primary_address) command bytes)
      ≡ reply
    → 0 < length reply
    → length reply ≤ 15
    → crc8_array (length reply ∷ wire reply) ≡ crc8_array (length reply ∷ reply)
    → Converses c
        (request_frame a.primary_address
          (to_secondary b.primary_address)
          (u8 (command / 2 ^ 8))
          (bit_and command 0xFF)
          bytes)
        reply
        (question a.primary_address (to_secondary b.primary_address) command bytes)
        (converse fuel (syn ∷ []) a b)
converse-Converses a b c command bytes reply fuel enough short all pa hb pb apart built caller idle
      e some_bytes few same_crc =
    let zz : ℕ = to_secondary b.primary_address in
    let hi : ℕ = u8 (command / 2 ^ 8) in
    let lo : ℕ = bit_and command 0xFF in
    let usable = to_secondary-not-primary b.primary_address hb pb in
    let is_c : command_of a.primary_address zz hi lo bytes 0 wait_for_send ≡ c =
      some-injective _ _
        (sym (send_command-frame a.primary_address zz command bytes short) ∙ built) in
    let own = primary-plain a.primary_address pa in
    let built_caller = subst (λ c. IsCaller c a) (sym is_c) caller in
    subst
      (λ c.
        Converses c (request_frame a.primary_address zz hi lo bytes) reply
          (question a.primary_address zz command bytes) (converse fuel (syn ∷ []) a b))
      is_c
      (subst
        (λ r.
          Converses (command_of a.primary_address zz hi lo bytes 0 wait_for_send)
            (request_frame a.primary_address zz hi lo bytes) r
            (question a.primary_address zz command bytes) (converse fuel (syn ∷ []) a b))
        e
        (known-Converses a.primary_address hi lo bytes short all own a b zz
          (usable.1, usable.3, usable.4) refl refl apart built_caller idle
          (subst (λ r. 0 < length r) (sym e) some_bytes) (subst (λ r. length r ≤ 15) (sym e) few)
          (subst (λ r. crc8_array (length r ∷ wire r) ≡ crc8_array (length r ∷ r)) (sym e) same_crc)
          fuel enough))
