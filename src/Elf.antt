-- ===== src/Elf.antt =====
-- The class `Elf` of esphome/components/ebus/ebus.cpp: CRC and bus addresses.
pub mod Crc
pub mod Address
use esphome.Prelude.{
  ℕ, zero, suc, ◌+◌, ◌*◌, ◌/◌, ◌%◌, ◌^◌, bit_and, bit_or, bit_xor, Bool, true, false, ◌&&◌, ◌||◌,
  ◌==◌, if◌then◌else◌, u8, List, [], ◌∷◌,
}

-- One round of the loop of `crc8_calc`: the new `crc`.
unfoldable pub crc8_round : ℕ → ℕ → ℕ
crc8_round byte crc =
    let polynom : ℕ = if bit_and crc 0x80 == 0 then 0 else 0x9B in
    let shifted = u8 (bit_and crc 0x7F * 2) in
    let filled = if bit_and byte 0x80 == 0 then shifted else bit_or shifted 1 in
    bit_xor filled polynom

-- The loop of `crc8_calc`, over the rounds left.
unfoldable pub crc8_rounds : ℕ → ℕ → ℕ → ℕ
unfolding crc8_round
crc8_rounds zero byte crc = crc
crc8_rounds (suc n) byte crc = crc8_rounds n (u8 (byte * 2)) (crc8_round byte crc)

unfoldable pub crc8_calc : ℕ → ℕ → ℕ
unfolding crc8_rounds
crc8_calc byte crc_init = crc8_rounds 8 byte crc_init

-- The loop of `crc8_array`, from the CRC so far over the bytes left.
unfoldable pub crc8_from : ℕ → List ℕ → ℕ
crc8_from uc_crc [] = uc_crc
crc8_from uc_crc (byte ∷ rest) = crc8_from (crc8_calc byte uc_crc) rest

-- The list holds the `length` bytes of the array.
unfoldable pub crc8_array : List ℕ → ℕ
unfolding crc8_from
crc8_array bytes = crc8_from 0 bytes

unfoldable pub is_primary_nibble : ℕ → Bool
is_primary_nibble nibble =
    nibble == 0b0000 || nibble == 0b0001 || nibble == 0b0011 || nibble == 0b0111 || nibble == 0b1111

unfoldable pub get_priority_class : ℕ → ℕ
get_priority_class address = bit_and address 0x0F

unfoldable pub get_sub_address : ℕ → ℕ
get_sub_address address = address / 2 ^ 4

unfoldable pub is_primary : ℕ → Bool
unfolding is_primary_nibble get_priority_class get_sub_address
is_primary address =
    is_primary_nibble (get_priority_class address) && is_primary_nibble (get_sub_address address)

unfoldable pub to_secondary : ℕ → ℕ
to_secondary address = if is_primary address then (address + 5) % 0xFF else address
