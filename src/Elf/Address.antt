-- ===== src/Elf/Address.antt =====
-- Primary and secondary addresses: `is_primary` and `to_secondary`.
use esphome.Prelude.{
  ℕ, ◌-◌, ◌/◌, ◌%◌, ◌^◌, ◌<◌, ◌≡◌, ◌≢◌, ◌↔◌, ◌⊎◌, refl, Bool, true, false, ◌==◌, ◌&&◌, ◌||◌, not,
  arith,
}
use esphome.Prelude.Bits.{holds_below, holds_below-lt}
use esphome.Elf.{is_primary, to_secondary}

same : Bool → Bool → Bool
same true b = b
same false b = not b

same-eq : (a b : Bool) → same a b ≡ true → a ≡ b
unfolding same
same-eq true true h = refl
same-eq true false h = cc
same-eq false true h = cc
same-eq false false h = refl

to_secondary-lt : (address : ℕ) → address < 256 → to_secondary address < 256
unfolding to_secondary
to_secondary-lt address h = ground arith

-- A nibble of a primary address: zeros, then ones, from the left.
unfoldable pub is_ones : ℕ → Bool
is_ones nibble =
    nibble == 2 ^ 0 - 1
    || nibble == 2 ^ 1 - 1
    || nibble == 2 ^ 2 - 1
    || nibble == 2 ^ 3 - 1
    || nibble == 2 ^ 4 - 1

primary_table :
    holds_below (λ a. same (is_primary a) (is_ones (a / 16) && is_ones (a % 16))) 256 ≡ true
unfolding holds_below is_primary is_ones same
primary_table = refl

-- An address of one byte is primary exactly when each of its nibbles is zeros followed by ones.
pub is_primary-is_ones :
    (address : ℕ)
    → address < 256
    → is_primary address ≡ (is_ones (address / 16) && is_ones (address % 16))
is_primary-is_ones address h = same-eq _ _ (holds_below-lt _ 256 address primary_table h)

abbrev is_usable : ℕ → Bool
is_usable target =
    not (is_primary target)
    && (not (target == 0xAA) && (not (target == 0xA9) && not (target == 0xFE)))

usable_table : holds_below (λ a. not (is_primary a) || is_usable (to_secondary a)) 256 ≡ true
unfolding holds_below to_secondary is_primary
usable_table = refl

-- The secondary address of a primary address is a byte, is not primary itself, and is neither
-- SYN, ESC nor the broadcast address.
pub to_secondary-not-primary :
    (address : ℕ)
    → address < 256
    → is_primary address ≡ true
    → (to_secondary address < 256)
      × (is_primary (to_secondary address) ≡ false)
      × (to_secondary address ≢ 0xAA)
      × (to_secondary address ≢ 0xA9)
      × (to_secondary address ≢ 0xFE)
to_secondary-not-primary address h p =
    ground (arith, holds_below-lt _ 256 address usable_table h, to_secondary-lt address h)

to_secondary-of_not_primary :
    (address : ℕ) → is_primary address ≡ false → to_secondary address ≡ address
unfolding to_secondary
to_secondary-of_not_primary address p = rw p

-- Two primary addresses share a secondary address exactly if they are equal, or are 0x00 and 0xFF.
pub to_secondary-eq_iff :
    (a b : ℕ)
    → a < 256
    → b < 256
    → is_primary a ≡ true
    → is_primary b ≡ true
    → (to_secondary a ≡ to_secondary b)
      ↔ ((a ≡ b) ⊎ ((a ≡ 0x00) × (b ≡ 0xFF)) ⊎ ((a ≡ 0xFF) × (b ≡ 0x00)))
unfolding to_secondary
to_secondary-eq_iff a b ha hb pa pb = ground arith
