-- ===== src/Item/Match.antt =====
-- `is_mine` of esphome/components/ebus/ebus_component.cpp: which telegrams an item takes.
use esphome.Prelude.{
  ℕ, ◌+◌, ◌≤◌, ◌≡◌, ◌⊎◌, ◌↔◌, inl, inr, refl, sym, Bool-cases, subst, true, List, [], ◌∷◌, length,
  drop, get_or, drop-get_or, arith, pos, eq_int,
}
use esphome.Telegram.{
  syn, get_zz, get_nn, get_command, get_request_byte, offset_data, request_buffer_size,
}
use esphome.Telegram.Received.{Telegram}
use esphome.Telegram.Bounds.{get_nn-lt}
use esphome.Item.{EbusItem, is_mine, payload_matches}

-- The first list is the beginning of the second.
pub data IsPrefix : List ℕ → List ℕ → Type 0 where
  empty : {ys : List ℕ} → IsPrefix [] ys
  step : {x : ℕ} {xs ys : List ℕ} → IsPrefix xs ys → IsPrefix (x ∷ xs) (x ∷ ys)

prefix-cons : {x y : ℕ} {xs ys : List ℕ} → IsPrefix (x ∷ xs) (y ∷ ys) → (x ≡ y) × IsPrefix xs ys
prefix-cons (step p) = (refl, p)

-- The payload lies within the data bytes and the CRC behind them, from index `i` on.
pub record Matches (t : Telegram) (payload : List ℕ) (i : ℕ) : Type 0 where
  pub bounded : i + length payload ≤ get_nn t.base + 1
  pub prefix : IsPrefix payload (drop (offset_data + i) t.request_buffer)

module _ (t : Telegram) (size : length t.request_buffer ≡ request_buffer_size) where
  head_matches :
      (byte : ℕ) (i : ℕ)
      → eq_int (pos byte) (get_request_byte t.base i) ≡ true
      → (i ≤ get_nn t.base)
        × (drop (offset_data + i) t.request_buffer
            ≡ byte ∷ drop (offset_data + (i + 1)) t.request_buffer)
  unfolding get_request_byte
  head_matches byte i e =
      ground (arith, get_nn-lt t.base, drop-get_or (offset_data + i) t.request_buffer 0)

  payload_matches-Matches :
      (payload : List ℕ) (i : ℕ)
      → i ≤ get_nn t.base + 1
      → payload_matches t payload i ≡ true
      → Matches t payload i
  unfolding payload_matches
  payload_matches-Matches [] i h m = record { bounded = omega arith; prefix = empty }
  payload_matches-Matches (byte ∷ rest) i h m =
      elim (Bool-cases (eq_int (pos byte) (get_request_byte t.base i))) [
        | inl e ↦
            let head = head_matches byte i e in
            let tail =
              payload_matches-Matches rest (i + 1) (omega (arith, head.0)) (ground arith) in
            record {
              bounded = omega (arith, tail.bounded);
              prefix = subst (IsPrefix (byte ∷ rest)) (sym head.1) (step tail.prefix);
            }
        | inr e ↦ absurd (ground arith)
      ]

  split_prefix :
      (byte : ℕ) (rest : List ℕ) (i : ℕ)
      → Matches t (byte ∷ rest) i
      → (byte ≡ get_or t.request_buffer (offset_data + i) 0)
        × IsPrefix rest (drop (offset_data + (i + 1)) t.request_buffer)
  split_prefix byte rest i m =
      let next : offset_data + (i + 1) ≡ offset_data + i + 1 = omega arith in
      rw (next) (
        prefix-cons (
          subst (IsPrefix (byte ∷ rest))
            (drop-get_or (offset_data + i) t.request_buffer 0
              (omega (arith, size, m.bounded, get_nn-lt t.base)))
            m.prefix))

  head_taken :
      (byte : ℕ) (rest : List ℕ) (i : ℕ)
      → Matches t (byte ∷ rest) i
      → eq_int (pos byte) (get_request_byte t.base i) ≡ true
  unfolding get_request_byte
  head_taken byte rest i m = ground (arith, split_prefix byte rest i m, m.bounded, get_nn-lt t.base)

  Matches-payload_matches :
      (payload : List ℕ) (i : ℕ) → Matches t payload i → payload_matches t payload i ≡ true
  unfolding payload_matches
  Matches-payload_matches [] i m = refl
  Matches-payload_matches (byte ∷ rest) i m =
      let e : eq_int (pos byte) (get_request_byte t.base i) ≡ true = head_taken byte rest i m in
      rw (e) (
        Matches-payload_matches rest (i + 1)
          record { bounded = omega (arith, m.bounded); prefix = (split_prefix byte rest i m).1 })

-- What an item asks for of a telegram.
pub record Mine (item : EbusItem) (t : Telegram) : Type 0 where
  pub for_address : (item.address ≡ syn) ⊎ (item.address ≡ get_zz t.base)
  pub has_command : get_command t.base ≡ item.command
  pub has_payload : Matches t item.payload 0

is_mine-Mine :
    (item : EbusItem) (t : Telegram)
    → length t.request_buffer ≡ request_buffer_size
    → is_mine item t ≡ true
    → Mine item t
unfolding is_mine
is_mine-Mine item t size m = record {
  for_address = ground arith;
  has_command = ground arith;
  has_payload = payload_matches-Matches t size item.payload 0 (omega arith) (ground arith);
}

Mine-is_mine :
    (item : EbusItem) (t : Telegram)
    → length t.request_buffer ≡ request_buffer_size
    → Mine item t
    → is_mine item t ≡ true
unfolding is_mine
Mine-is_mine item t size m = ground (
  arith,
  m.for_address,
  m.has_command,
  Matches-payload_matches t size item.payload 0 m.has_payload,
)

-- An item takes just the telegrams for its address (any, if that is SYN) with its command and with
-- its payload at the beginning of the data bytes; a payload of one byte more than there are data
-- bytes is taken too, if it ends in the CRC. The request buffer has its size.
pub is_mine_iff :
    (item : EbusItem) (t : Telegram)
    → length t.request_buffer ≡ request_buffer_size
    → is_mine item t ≡ true ↔ Mine item t
is_mine_iff item t size = (is_mine-Mine item t size, Mine-is_mine item t size)
