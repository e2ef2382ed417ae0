-- ===== src/Lan865x/Multicast.antt =====
-- The multicast filter of src/linux/drivers/net/ethernet/microchip/lan865x/lan865x.c: the hash of
-- an address, and the two registers that hold one bit for each of its 64 values.
pub mod Bits
pub mod Hash
pub mod Filter
use base_t1s.Prelude.{
  ℕ, zero, suc, ◌+◌, ◌-◌, ◌*◌, ◌/◌, ◌%◌, ◌^◌, bit_or, bit_xor, List, [], ◌∷◌, M, ◌>>◌, get_or, leb,
  if◌then◌else◌,
}
use base_t1s.Word.{u32}
use base_t1s.Tc6.Bus.{RegisterBus}

-- An address is the list of its six bytes.
unfoldable pub get_address_bit : List ℕ → ℕ → ℕ
get_address_bit addr bit = get_or addr (bit / 8) 0 / 2 ^ (bit % 8) % 2

-- The loop over `j`, with the rounds left first.
unfoldable pub hash_bits : ℕ → List ℕ → ℕ → ℕ → ℕ → ℕ
hash_bits zero addr i j hash = hash
hash_bits (suc n) addr i j hash =
    hash_bits n addr i (j + 1) (bit_xor hash (get_address_bit addr (j * 6 + i)))

-- The loop over `i`, with the rounds left first.
unfoldable pub hash_columns : ℕ → List ℕ → ℕ → ℕ → ℕ
hash_columns zero addr i hash_index = hash_index
hash_columns (suc n) addr i hash_index =
    hash_columns n addr (i + 1) (bit_or hash_index (u32 (hash_bits 8 addr i 0 0 * 2 ^ i)))

unfoldable pub lan865x_hash : List ℕ → ℕ
lan865x_hash addr = hash_columns 6 addr 0 0

-- The loop over the addresses, from the masks so far: the upper and the lower one.
unfoldable pub hash_masks : List (List ℕ) → ℕ → ℕ → ℕ × ℕ
hash_masks [] hash_hi hash_lo = (hash_hi, hash_lo)
hash_masks (addr ∷ addrs) hash_hi hash_lo =
    let bit_num = lan865x_hash addr in
    if leb 32 bit_num
    then hash_masks addrs (bit_or hash_hi (u32 (2 ^ (bit_num - 32)))) hash_lo
    else hash_masks addrs hash_hi (bit_or hash_lo (u32 (2 ^ bit_num)))

module _ {S : Type 0} (bus : RegisterBus S) where
  open bus use {read_register, write_register}

  -- LAN865X_REG_MAC_H_HASH, then LAN865X_REG_MAC_L_HASH.
  unfoldable pub write_hash : ℕ → ℕ → M S (Unit {0})
  write_hash hash_hi hash_lo = do
    write_register 0x00010021 hash_hi
    write_register 0x00010020 hash_lo

  unfoldable pub set_specific_multicast_addr : List (List ℕ) → M S (Unit {0})
  set_specific_multicast_addr addrs = write_hash (hash_masks addrs 0 0).0 (hash_masks addrs 0 0).1

  unfoldable pub set_all_multicast_addr : M S (Unit {0})
  set_all_multicast_addr = write_hash 0xffffffff 0xffffffff

  unfoldable pub clear_all_multicast_addr : M S (Unit {0})
  clear_all_multicast_addr = write_hash 0 0
