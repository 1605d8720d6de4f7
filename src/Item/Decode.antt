-- ===== src/Item/Decode.antt =====
-- `get_response_bytes` of esphome/components/ebus/ebus_component.cpp, as the number that the bytes
-- spell, the lowest first.
use native.Mathlib.Nat.{pow-suc, mul_comm, mul_assoc, mul-add, pow-le-pow_right}
use esphome.Prelude.{
  ℕ, zero, suc, ◌+◌, ◌-◌, ◌*◌, ◌%◌, ◌^◌, ◌≤◌, ◌<◌, ◌≡◌, refl, sym, ap, bit_or, ltb, if◌then◌else◌,
  u8, List, [], ◌∷◌, take, drop, get_or, drop-get_or, arith, IsByte, All-get_or,
}
use esphome.Prelude.Bits.{bit_or-add}
use esphome.Telegram.{response_offset}
use esphome.Telegram.Received.{Telegram, get_response_byte, get_response_nn}
use esphome.Telegram.Bounds.{IsResponse, get_response_nn-lt}
use esphome.Item.{get_response_bytes, response_bytes_from}

unfoldable pub little_endian : List ℕ → ℕ
little_endian [] = 0
little_endian (byte ∷ rest) = byte + 256 * little_endian rest

-- What `get_response_byte` gives for so many bytes from index `i` on.
bytes_at : Telegram → ℕ → ℕ → ℕ → List ℕ
bytes_at t start zero i = []
bytes_at t start (suc left) i = get_response_byte t (u8 (start + i)) ∷ bytes_at t start left (i + 1)

get_response_byte-lt : (t : Telegram) (i : ℕ) → IsResponse t → get_response_byte t i < 256
unfolding get_response_byte
get_response_byte-lt t i valid = grind (arith, buffered)
  where
    buffered : (i : ℕ) → i < 16 → get_or t.response_buffer (response_offset + i) 0 < 256
    buffered i h =
        All-get_or IsByte t.response_buffer (response_offset + i) 0 valid.bytes
          (omega (arith, valid.sized))

next_place : (i : ℕ) → 2 ^ ((i + 1) * 8) ≡ 2 ^ (i * 8) * 256
next_place i =
    let more : (i + 1) * 8 ≡ suc (suc (suc (suc (suc (suc (suc (suc (i * 8)))))))) = omega arith in
    rw more (simp pow-suc (omega arith))

place-le : (i : ℕ) → i < 4 → 2 ^ (i * 8) * 256 ≤ 2 ^ 32
place-le i h = omega (
  arith,
  next_place i,
  pow-le-pow_right {n = 2} (omega arith) {i = (i + 1) * 8} {j = 32} (omega arith),
)

scaled_byte : (place byte : ℕ) → byte < 256 → byte * place + place ≤ place * 256
scaled_byte place byte h =
    let parts : byte + (255 - byte + 1) ≡ 256 = omega arith in
    omega (
      arith,
      mul_comm byte place,
      mul-add place byte (255 - byte + 1),
      mul-add place (255 - byte) 1,
      ap (λ n. place * n) parts,
    )

-- A byte is joined to what the lower places hold.
join_byte :
    (i result byte : ℕ)
    → i < 4
    → byte < 256
    → result < 2 ^ (i * 8)
    → (bit_or result (byte * 2 ^ (i * 8)) % 2 ^ 32 ≡ result + byte * 2 ^ (i * 8))
      × (result + byte * 2 ^ (i * 8) < 2 ^ ((i + 1) * 8))
join_byte i result byte h hb small =
    let joined = bit_or-add result (i * 8) byte small in
    let below : byte * 2 ^ (i * 8) + 2 ^ (i * 8) ≤ 2 ^ (i * 8) * 256 =
      scaled_byte (2 ^ (i * 8)) byte hb in
    (omega (arith, joined, place-le i h, below), omega (arith, next_place i, below))

-- The loop adds what is left to the result so far.
response_bytes_from-little_endian :
    (t : Telegram) (start left i result : ℕ)
    → IsResponse t
    → i + left ≤ 4
    → result < 2 ^ (i * 8)
    → response_bytes_from t start left i result
      ≡ result + 2 ^ (i * 8) * little_endian (bytes_at t start left i)
unfolding response_bytes_from little_endian bytes_at
response_bytes_from-little_endian t start zero i result valid h small = omega arith
response_bytes_from-little_endian t start (suc left) i result valid h small =
    let byte : ℕ = get_response_byte t (u8 (start + i)) in
    let joined =
      join_byte i result byte (omega arith) (get_response_byte-lt t (u8 (start + i)) valid) small in
    let rest : ℕ = little_endian (bytes_at t start left (i + 1)) in
    rw (joined.0) (
      omega (
        arith,
        response_bytes_from-little_endian t start left (i + 1) _ valid (omega arith) joined.1,
        ap (λ n. n * rest) (next_place i),
        mul_assoc (2 ^ (i * 8)) 256 rest,
        mul-add (2 ^ (i * 8)) byte (256 * rest),
        mul_comm byte (2 ^ (i * 8)),
      ))

byte_in_buffer :
    (t : Telegram) (i : ℕ)
    → i < get_response_nn t + 1
    → get_response_byte t (u8 i) ≡ get_or t.response_buffer (response_offset + i) 0
unfolding get_response_byte get_response_nn
byte_in_buffer t i h = ground arith

bytes_at-take :
    (t : Telegram) (start left i : ℕ)
    → IsResponse t
    → start + i + left ≤ get_response_nn t + 1
    → bytes_at t start left i ≡ take left (drop (response_offset + (start + i)) t.response_buffer)
unfolding bytes_at
bytes_at-take t start zero i valid h = refl
bytes_at-take t start (suc left) i valid h =
    let at : ℕ = response_offset + (start + i) in
    let next : response_offset + (start + (i + 1)) ≡ at + 1 = omega arith in
    rw
      (
        drop-get_or at t.response_buffer 0 (omega (arith, valid.sized, get_response_nn-lt t)),
        byte_in_buffer t (start + i) (omega arith),
        sym next,
      )
      (ap (◌∷◌ (get_or t.response_buffer at 0))
        (bytes_at-take t start left (i + 1) valid (omega arith)))

-- The number that an item reads is that of the response's bytes from its position on, the lowest
-- first, as many as asked for and four at most. The buffer of the response is proper, and the bytes
-- read end with its data bytes or with the CRC right behind them.
pub get_response_bytes-little_endian :
    (t : Telegram) (start count : ℕ)
    → IsResponse t
    → start + (if ltb count 4 then count else 4) ≤ get_response_nn t + 1
    → get_response_bytes t start count
      ≡ little_endian (
          take
            (if ltb count 4 then count else 4)
            (drop (response_offset + start) t.response_buffer))
unfolding get_response_bytes
get_response_bytes-little_endian t start count valid h =
    let rounds : ℕ = if ltb count 4 then count else 4 in
    let few : rounds ≤ 4 = ground arith in
    let here : start + 0 ≡ start = omega arith in
    omega (
      arith,
      response_bytes_from-little_endian t start rounds 0 0 valid (omega arith) (omega arith),
      ap little_endian (bytes_at-take t start rounds 0 valid (omega arith)),
      ap (λ at. little_endian (take rounds (drop (response_offset + at) t.response_buffer))) here,
    )
