-- ===== src/Zebus/Identify.antt =====
-- The answer to an identification request: the handler that `setup_ebus` of
-- esphome/components/zebus/zebus.h adds, and `handle_response` of include/ebus.cpp.
use esphome.Prelude.{
  ℕ, ◌/◌, ◌%◌, ◌^◌, ◌<◌, ◌≡◌, refl, true, ◌==◌, bit_and, List, [], ◌∷◌, ◌++◌, take, drop, replicate,
  some, ◌>>=◌, arith,
}
use esphome.Prelude.Bits.{holds_below, holds_below-lt}
use esphome.Telegram.{wait_for_request_ack, response_buffer_size}
use esphome.Telegram.Received.{Telegram}
use esphome.Ebus.{send_reply}
use esphome.Ebus.Sending.{on_wire}
use esphome.Ebus.Replies.{answer, send_reply-answer}
use esphome.Item.{Floats}
use esphome.Component.{Queues}
use esphome.Zebus.Elf.{to_slave}
use esphome.Zebus.Telegram.{get_zz, is_request_valid}
use esphome.Zebus.Driver.{Ebus, ask_handlers, handle_response, new_driver, append_handler}
use esphome.Zebus.Messages.{
  Identification, identify, identification_response, name_bytes, get_byte, command_of_telegram,
  cmd_identification,
}
use esphome.Zebus.Component.{Zebus, setup, setup_driver}
use esphome.Zebus.SameReplies.{same_send_answer}

padded_name : (name : List ℕ) → name_bytes name 5 0 ≡ take 5 (name ++ replicate 5 b'-')
unfolding name_bytes
padded_name [] = refl
padded_name (a ∷ []) = refl
padded_name (a ∷ b ∷ []) = refl
padded_name (a ∷ b ∷ c ∷ []) = refl
padded_name (a ∷ b ∷ c ∷ d ∷ []) = refl
padded_name (a ∷ b ∷ c ∷ d ∷ e ∷ name) = ground arith

-- The ten bytes of an identification.
abbrev pub identification_bytes : Identification → List ℕ
identification_bytes id =
    id.vendor_id
    ∷ (take 5 (id.device_name ++ replicate 5 b'-')
        ++ id.software_version / 2 ^ 8
          ∷ id.software_version % 2 ^ 8
          ∷ id.hardware_version / 2 ^ 8
          ∷ id.hardware_version % 2 ^ 8
          ∷ [])

low_byte_table : holds_below (λ word. bit_and word 0xFF == word % 2 ^ 8) (2 ^ 16) ≡ true
unfolding holds_below
low_byte_table = refl

get_byte-word :
    (word : ℕ) → word < 2 ^ 16 → (get_byte word 1 ≡ word / 2 ^ 8) × (get_byte word 0 ≡ word % 2 ^ 8)
unfolding get_byte
get_byte-word word h =
    let low = holds_below-lt _ (2 ^ 16) word low_byte_table h in
    let high = holds_below-lt _ (2 ^ 16) (word / 2 ^ 8) low_byte_table (omega (arith, h)) in
    ground (arith, low, high)

identification_response-bytes :
    (id : Identification)
    → id.software_version < 2 ^ 16
    → id.hardware_version < 2 ^ 16
    → identification_response id ≡ identification_bytes id
unfolding identification_response name_bytes
identification_response-bytes id s h =
    let (s1, s0) = get_byte-word id.software_version s in
    let (h1, h0) = get_byte-word id.hardware_version h in
    ground (arith, s1, s0, h1, h0, padded_name id.device_name)

answers :
    (e : Ebus) (id : Identification) (t : Telegram)
    → e.send_response_handlers ≡ identify id ∷ []
    → t.state ≡ wait_for_request_ack
    → get_zz t.base ≡ to_slave e.master_address
    → is_request_valid t ≡ true
    → command_of_telegram t ≡ cmd_identification
    → handle_response e t ≡ some (send_reply (identification_response id))
unfolding handle_response ask_handlers identify identification_response name_bytes
answers e id t handlers s ours valid command =
    rw (handlers, ours, valid, command)
      (ground (
        arith,
        s,
        same_send_answer (identification_response id) (drop 10 (replicate response_buffer_size 0)),
      ))

-- After `setup`, a complete request with a right CRC to the driver's secondary address that asks for
-- the identification is answered: an ACK, the length 10, the vendor, the first five characters of the
-- device name, filled up with `-`, and the versions of software and hardware, which are words, their
-- high byte first; all but the ACK and the length escaped, and the CRC over these bytes as they go out.
pub handle_response-identifies :
    (f : Floats) (q : Queues) (z : Zebus f q) (t : Telegram)
    → z.zebus_config.identification.software_version < 2 ^ 16
    → z.zebus_config.identification.hardware_version < 2 ^ 16
    → t.state ≡ wait_for_request_ack
    → get_zz t.base ≡ to_slave z.zebus_config.ebus_config.master_address
    → is_request_valid t ≡ true
    → command_of_telegram t ≡ cmd_identification
    → (handle_response (setup f q z).ebus t >>= λ effects. some (on_wire effects))
      ≡ some (answer (identification_bytes z.zebus_config.identification))
unfolding setup setup_driver new_driver append_handler
handle_response-identifies f q z t sw hw s ours valid command =
    let id = z.zebus_config.identification in
    rw
      (
        answers (setup f q z).ebus id t refl s ours valid command,
        identification_response-bytes id sw hw,
      )
      ground (arith, send_reply-answer (identification_bytes id))
