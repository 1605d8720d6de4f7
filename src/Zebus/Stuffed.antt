-- ===== src/Zebus/Stuffed.antt =====
-- A whole request at `process_received_char` of esphome/components/zebus/include/ebus.cpp.
use mathlib.Core.List.{append_assoc, append-nil, map-append}
use esphome.Prelude.{
  ℕ, ◌≤◌, ◌≡◌, ◌≢◌, refl, ap, sym, subst, ◌∙◌, ◌⊎◌, inl, inr, Bool, true, false, not, ◌&&◌, ◌==◌,
  if◌then◌else◌, List, [], ◌∷◌, ◌++◌, map, length, some, arith,
}
use esphome.Telegram.{
  TelegramState, wait_for_arbitration, wait_for_request_data, wait_for_request_ack, end_completed,
  syn, esc, broadcast_address,
}
use esphome.Telegram.Received.{Telegram}
use esphome.Telegram.Frame.{length-snoc}
use esphome.Telegram.Sent.{request_body}
use esphome.Zebus.Telegram.{
  get_zz, get_type, is_ack_expected, is_request_complete, initial_telegram, is_finished, enter,
}
use esphome.Zebus.Receive.{receive_byte}
use esphome.Zebus.Kept.{current_telegram}
use esphome.Zebus.Driver.{sent_bytes}
use esphome.Zebus.Escapes.{Holds, stored}
use esphome.Zebus.Stuffing.{
  receive_bytes, settle, is_whole, complete-Holds, crc_step, Arrives, byte-Arrives,
}
use esphome.Zebus.Pieces.{
  sent_all, crc_steps, length-stored, Behind, bytes-Behind, enter-Holds, first, first-Holds,
  first_received,
}

whole-Holds :
    {xs : List ℕ} {crc : ℕ} {t : Telegram}
    → Holds wait_for_request_data false xs crc t
    → is_whole xs ≡ true
    → Holds
        (if is_ack_expected t.base then wait_for_request_ack else end_completed)
        false
        xs
        crc
        (settle t)
unfolding settle
whole-Holds {t = t} h whole = rw (completes) (enter-Holds _ h)
  where
    completes : is_request_complete t ≡ true
    completes = complete-Holds h ∙ ap (λ b. b && true) whole

ack-Holds :
    {s : TelegramState} {waits : Bool} {a b : ℕ} {xs : List ℕ} {crc : ℕ} {t : Telegram}
    → Holds s waits (a ∷ b ∷ xs) crc t
    → is_ack_expected t.base ≡ not (b == broadcast_address)
unfolding is_ack_expected get_type get_zz
ack-Holds h = rw (h.buffer) (ground arith)

sent_all-append : (xs ys : List ℕ) → sent_all (xs ++ ys) ≡ sent_all xs ++ sent_all ys
sent_all-append [] ys = refl
sent_all-append (x ∷ xs) ys =
    rw (sent_all-append xs ys) (sym (append_assoc (sent_bytes x true) (sent_all xs) (sent_all ys)))

crc_steps-append :
    (ys zs xs : List ℕ) (crc : ℕ)
    → crc_steps xs (ys ++ zs) crc ≡ crc_steps (xs ++ map stored ys) zs (crc_steps xs ys crc)
crc_steps-append [] zs xs crc = rw (append-nil xs)
crc_steps-append (y ∷ ys) zs xs crc =
    rw (append_assoc xs (stored y ∷ []) (map stored ys)) at
      (crc_steps-append ys zs (xs ++ stored y ∷ []) (crc_step xs y crc))

-- The telegram behind a whole request on the wire.
pub record Stuffed (zz : ℕ) (bytes : List ℕ) (t : Telegram) : Type 0 where
  pub final : Telegram
  pub received : receive_bytes (syn ∷ sent_all bytes) t ≡ some final
  pub holds :
      Holds
        (if zz == broadcast_address then end_completed else wait_for_request_ack)
        false
        (map stored bytes)
        (crc_steps [] bytes 0)
        final

-- No telegram is open: the next one has not begun, or the last one has ended.
abbrev pub IsBetween : Telegram → Type 0
IsBetween t =
    (t ≡ initial_telegram)
    ⊎ ((t ≡ enter wait_for_arbitration initial_telegram) ⊎ (is_finished t.base ≡ true))

-- Between telegrams, a SYN leaves the same as in a new one.
syn-between :
    (t : Telegram) (rest : List ℕ)
    → IsBetween t
    → receive_bytes (syn ∷ rest) t ≡ receive_bytes (syn ∷ rest) initial_telegram
unfolding receive_bytes current_telegram is_finished initial_telegram
syn-between t rest (inl fresh) = ap (λ t. receive_bytes (syn ∷ rest) t) fresh
syn-between t rest (inr (inl begun)) = ap (λ t. receive_bytes (syn ∷ rest) t) begun ∙ again
  where
    again :
        receive_bytes (syn ∷ rest) (enter wait_for_arbitration initial_telegram)
        ≡ receive_bytes (syn ∷ rest) initial_telegram
    again = unfold receive_byte enter in refl
syn-between t rest (inr (inr finished)) = rw (finished) refl

-- A SYN and a request with at most 15 data bytes, sent as the sender of this driver escapes it, and
-- with any byte for its CRC, leave a telegram that waits for the acknowledgement, or is complete if it
-- is a broadcast, where no telegram is open before the SYN: the next one has not begun, or the last one
-- has ended. Its buffer begins with the bytes of the request, but an ESC for each SYN. The rolling
-- CRC is that of the bytes on the wire, where the second byte of an escaped pair counts only if its
-- place, one behind the pair's, is before the CRC. The sender's address is neither SYN nor ESC.
pub receive_bytes-Stuffed :
    (qq zz pb sb crc : ℕ) (bytes : List ℕ) (t : Telegram)
    → IsBetween t
    → qq ≢ syn
    → qq ≢ esc
    → length bytes ≤ 15
    → Stuffed zz (request_body qq zz pb sb bytes ++ crc ∷ []) t
receive_bytes-Stuffed qq zz pb sb crc bytes t between s e h = record {
  final = settle last.next;
  received =
      syn-between t (sent_all (request_body qq zz pb sb bytes ++ crc ∷ [])) between
      ∙ first_received qq e' s' (sent_all (rest ++ crc ∷ []))
      ∙ ap (λ sent. receive_bytes sent (first qq e' s')) (sent_all-append rest (crc ∷ []))
      ∙ data'.received (sent_all (crc ∷ []))
      ∙ last.received []
      ∙ (unfold receive_bytes in refl);
  holds =
      rw
        (
          map-append stored rest (crc ∷ []),
          crc_steps-append rest (crc ∷ []) (stored qq ∷ []) (crc_step [] qq 0),
        )
        (subst
          (λ s.
            Holds s false ((stored qq ∷ map stored rest) ++ stored crc ∷ [])
              (crc_step (stored qq ∷ map stored rest) crc
                (crc_steps (stored qq ∷ []) rest (crc_step [] qq 0)))
              (settle last.next))
          acknowledged (whole-Holds last.holds whole));
}
  where
    rest : List ℕ
    rest = zz ∷ pb ∷ sb ∷ length bytes ∷ bytes

    e' : (qq == esc) ≡ false
    e' = ground arith

    s' : (qq == syn) ≡ false
    s' = ground arith

    data' :
        Behind wait_for_request_data
          (stored qq ∷ map stored rest)
          (crc_steps (stored qq ∷ []) rest (crc_step [] qq 0))
          (sent_all rest)
          (first qq e' s')
    data' =
        bytes-Behind rest (stored qq ∷ []) _ (first qq e' s') (first-Holds qq e' s')
          (unfold stored in ground (arith, length-stored bytes))

    last :
        Arrives
          (stored qq ∷ map stored rest)
          (crc_steps (stored qq ∷ []) rest (crc_step [] qq 0))
          crc
          data'.last
    last = byte-Arrives data'.holds (omega (arith, length-stored bytes)) crc

    whole : is_whole ((stored qq ∷ map stored rest) ++ stored crc ∷ []) ≡ true
    whole =
        unfold stored in
        ground (arith, length-snoc (map stored bytes) (stored crc), length-stored bytes)

    acknowledged :
        (if is_ack_expected last.next.base then wait_for_request_ack else end_completed)
        ≡ (if zz == broadcast_address then end_completed else wait_for_request_ack)
    acknowledged = unfold stored in ground (arith, ack-Holds last.holds)
