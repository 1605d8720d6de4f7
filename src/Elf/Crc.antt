-- ===== src/Elf/Crc.antt =====
-- What `crc8_calc` computes, and which errors a CRC over a message shows.
use esphome.Prelude.{
  ℕ, zero, suc, ◌+◌, ◌*◌, ◌/◌, ◌%◌, ◌^◌, ◌<◌, ltb, ◌&&◌, bit_xor, ◌≡◌, ◌≢◌, refl, sym, ap, ◌∙◌,
  true, ◌==◌, ==_iff, if◌then◌else◌, IsByte, List, [], ◌∷◌, ◌++◌, arith, All,
}
use esphome.Prelude.Bits.{holds_below, holds_below-lt, bit_xor_cancel, bit_xor-lt_pow, bit_xor_comm}
use esphome.Elf.{crc8_calc, crc8_from, crc8_array}

-- Long division of a polynomial over GF(2) by the generator x^8 + x^7 + x^4 + x^3 + x + 1: the
-- remainder, after `n` leading coefficients are cleared. Bit k of a number is the coefficient of x^k.
unfoldable pub remainder : ℕ → ℕ → ℕ
remainder zero poly = poly
remainder (suc n) poly =
    remainder n (if poly / 2 ^ (n + 8) % 2 == 0 then poly else bit_xor poly (0x19B * 2 ^ n))

crc8_calc_table :
    holds_below
      (λ crc.
        let shifted = remainder 8 (crc * 256) in
        holds_below (λ byte. crc8_calc byte crc == bit_xor shifted byte) 256)
      256
    ≡ true
unfolding holds_below remainder crc8_calc
crc8_calc_table = refl

-- The CRC after one more byte is (crc * x^8) mod the generator, plus the byte, over GF(2).
pub crc8_calc-remainder :
    (byte crc : ℕ)
    → byte < 256
    → crc < 256
    → crc8_calc byte crc ≡ bit_xor (remainder 8 (crc * 256)) byte
crc8_calc-remainder byte crc hb hc =
    (==_iff _ _).0 (holds_below-lt _ 256 byte (holds_below-lt _ 256 crc crc8_calc_table hc) hb)

-- Division by x, which undoes a multiplication by x modulo the generator, `n` times over.
unshift : ℕ → ℕ → ℕ
unshift zero poly = poly
unshift (suc n) poly = unshift n (if poly % 2 == 0 then poly / 2 else bit_xor poly 0x19B / 2)

shifted_table :
    holds_below
      (λ crc. ltb (remainder 8 (crc * 256)) 256 && unshift 8 (remainder 8 (crc * 256)) == crc)
      256
    ≡ true
unfolding holds_below remainder unshift
shifted_table = refl

shifted_facts :
    (crc : ℕ)
    → crc < 256
    → (remainder 8 (crc * 256) < 256) × (unshift 8 (remainder 8 (crc * 256)) ≡ crc)
shifted_facts crc h = ground (arith, holds_below-lt _ 256 crc shifted_table h)

pub crc8_calc-lt : (byte crc : ℕ) → byte < 256 → crc < 256 → crc8_calc byte crc < 256
crc8_calc-lt byte crc hb hc =
    rw (crc8_calc-remainder byte crc hb hc) (bit_xor-lt_pow 8 _ byte (shifted_facts crc hc).0 hb)

bit_xor_injective : (a b c : ℕ) → bit_xor a b ≡ bit_xor a c → b ≡ c
bit_xor_injective a b c e = sym (bit_xor_cancel a b) ∙ ap (bit_xor a) e ∙ bit_xor_cancel a c

-- From one CRC, two different bytes lead to two different CRCs.
crc8_calc_injective_byte :
    (b c crc : ℕ) → b < 256 → c < 256 → crc < 256 → crc8_calc b crc ≡ crc8_calc c crc → b ≡ c
crc8_calc_injective_byte b c crc hb hc h e =
    bit_xor_injective (remainder 8 (crc * 256)) b c
      (sym (crc8_calc-remainder b crc hb h) ∙ e ∙ crc8_calc-remainder c crc hc h)

remainder_injective :
    (c d : ℕ) → c < 256 → d < 256 → remainder 8 (c * 256) ≡ remainder 8 (d * 256) → c ≡ d
remainder_injective c d hc hd e =
    sym (shifted_facts c hc).1 ∙ ap (unshift 8) e ∙ (shifted_facts d hd).1

-- The same byte keeps two different CRCs apart.
crc8_calc_injective_crc :
    (byte c d : ℕ) → byte < 256 → c < 256 → d < 256 → crc8_calc byte c ≡ crc8_calc byte d → c ≡ d
crc8_calc_injective_crc byte c d hb hc hd e = remainder_injective c d hc hd (
    bit_xor_injective byte _ _ (
      bit_xor_comm byte _
      ∙ sym (crc8_calc-remainder byte c hb hc)
      ∙ e
      ∙ crc8_calc-remainder byte d hb hd
      ∙ bit_xor_comm _ byte))

crc8_from-lt : (crc : ℕ) (xs : List ℕ) → crc < 256 → All IsByte xs → crc8_from crc xs < 256
unfolding crc8_from
crc8_from-lt crc [] h hx = h
crc8_from-lt crc (x ∷ xs) h hx = crc8_from-lt (crc8_calc x crc) xs (crc8_calc-lt x crc hx.0 h) hx.1

crc8_from-append :
    (crc : ℕ) (xs ys : List ℕ) → crc8_from crc (xs ++ ys) ≡ crc8_from (crc8_from crc xs) ys
unfolding crc8_from
crc8_from-append crc [] ys = refl
crc8_from-append crc (x ∷ xs) ys = crc8_from-append (crc8_calc x crc) xs ys

crc8_from_injective :
    (c d : ℕ) (xs : List ℕ)
    → c < 256
    → d < 256
    → All IsByte xs
    → crc8_from c xs ≡ crc8_from d xs
    → c ≡ d
unfolding crc8_from
crc8_from_injective c d [] hc hd hx e = e
crc8_from_injective c d (x ∷ xs) hc hd hx e = crc8_calc_injective_crc x c d hx.0 hc hd (
    crc8_from_injective (crc8_calc x c) (crc8_calc x d) xs (crc8_calc-lt x c hx.0 hc)
      (crc8_calc-lt x d hx.0 hd) hx.1 e)

-- Two messages of bytes that differ in exactly one byte have different CRCs, wherever the byte
-- stands and whatever it was changed to.
pub crc8_array-ne_of_corrupted :
    (before after : List ℕ) (sent got : ℕ)
    → All IsByte before
    → All IsByte after
    → sent < 256
    → got < 256
    → sent ≢ got
    → crc8_array (before ++ sent ∷ after) ≢ crc8_array (before ++ got ∷ after)
unfolding crc8_array
crc8_array-ne_of_corrupted before after sent got hb ha hs hg differs e = differs (
    crc8_calc_injective_byte sent got start hs hg small (
      crc8_from_injective _ _ after (crc8_calc-lt sent start hs small)
        (crc8_calc-lt got start hg small) ha
        (sym (crc8_from-append 0 before (sent ∷ after))
          ∙ e
          ∙ crc8_from-append 0 before (got ∷ after))))
  where
    start : ℕ
    start = crc8_from 0 before

    small : start < 256
    small = crc8_from-lt 0 before (omega arith) hb
