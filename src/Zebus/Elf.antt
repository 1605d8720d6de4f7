-- ===== src/Zebus/Elf.antt =====
-- The class `Elf` of esphome/components/zebus/include/ebus.h and ebus.cpp.
use esphome.Prelude.{
  ℕ, zero, suc, ◌+◌, ◌*◌, ◌/◌, ◌%◌, ◌^◌, bit_and, bit_or, bit_xor, Bool, ◌&&◌, ◌||◌, ◌==◌,
  if◌then◌else◌, u8, List, [], ◌∷◌,
}

-- One round of the loop of `crc8_calc`: `data` and `crc` behind it.
unfoldable pub crc8_step : ℕ → ℕ → ℕ × ℕ
crc8_step byte crc =
    let polynom : ℕ = if bit_and crc 0x80 == 0 then 0 else 0x9B in
    let shifted = u8 (bit_and crc 0x7F * 2) in
    let filled = if bit_and byte 0x80 == 0 then shifted else bit_or shifted 1 in
    (u8 (byte * 2), bit_xor filled polynom)

-- The loop of `crc8_calc`, over the rounds left.
unfoldable pub crc8_loop : ℕ → ℕ → ℕ → ℕ
unfolding crc8_step
crc8_loop zero byte crc = crc
crc8_loop (suc left) byte crc = crc8_loop left (crc8_step byte crc).0 (crc8_step byte crc).1

unfoldable pub crc8_calc : ℕ → ℕ → ℕ
unfolding crc8_loop
crc8_calc byte crc_init = crc8_loop 8 byte crc_init

-- The loop of `crc8_array`, from the CRC so far over the bytes left.
unfoldable pub crc8_array_loop : ℕ → List ℕ → ℕ
crc8_array_loop uc_crc [] = uc_crc
crc8_array_loop uc_crc (byte ∷ rest) = crc8_array_loop (crc8_calc byte uc_crc) rest

-- The list holds the `length` bytes of the array.
unfoldable pub crc8_array : List ℕ → ℕ
unfolding crc8_array_loop
crc8_array bytes = crc8_array_loop 0 bytes

unfoldable pub is_master_nibble : ℕ → Bool
is_master_nibble nibble =
    nibble == 0b0000 || nibble == 0b0001 || nibble == 0b0011 || nibble == 0b0111 || nibble == 0b1111

unfoldable pub get_priority_class : ℕ → ℕ
get_priority_class address = bit_and address 0x0F

unfoldable pub get_sub_address : ℕ → ℕ
get_sub_address address = address / 2 ^ 4

unfoldable pub is_master : ℕ → Bool
unfolding is_master_nibble get_priority_class get_sub_address
is_master address =
    is_master_nibble (get_priority_class address) && is_master_nibble (get_sub_address address)

unfoldable pub to_slave : ℕ → ℕ
to_slave address = if is_master address then (address + 5) % 0xFF else address
