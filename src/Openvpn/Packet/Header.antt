-- ===== src/Openvpn/Packet/Header.antt =====
-- The byte that an opcode and a key id share.
use synology_filestation.Prelude.{
  ℕ, ◌+◌, ◌*◌, ◌/◌, ◌%◌, ◌^◌, ◌≤◌, ◌≡◌, refl, Bool, true, arith, ◌==◌, ==_iff, bit_and, bit_or,
}
use synology_filestation.Prelude.Bytes.{every_below, every_below_sound, low_three}
use synology_filestation.Openvpn.Error.{ok}
use synology_filestation.Openvpn.Opcode.{Opcode, as_u8}
use synology_filestation.Openvpn.Packet.{from_u8}

pub as_u8-le : (o : Opcode) → as_u8 o ≤ 9
unfolding as_u8
as_u8-le o = ground arith

-- Reading an opcode back gives the opcode.
pub from_u8-as_u8 : (o : Opcode) → from_u8 (as_u8 o) ≡ ok o
unfolding from_u8 as_u8
from_u8-as_u8 o = ground arith

abbrev header_sum : ℕ → ℕ → Bool
header_sum o k = bit_or (o * 2 ^ 3 % 256) k == o * 8 + k

header_table : every_below 10 (λ o. every_below 8 (header_sum o)) ≡ true
unfolding every_below
header_table = refl

pub header_lem : (o k : ℕ) → o ≤ 9 → k ≤ 7 → bit_or (o * 2 ^ 3 % 256) k ≡ o * 8 + k
header_lem o k ho hk = (==_iff _ _).0 (
    every_below_sound 8 (header_sum o) k
      (every_below_sound 10 (λ o. every_below 8 (header_sum o)) o header_table (omega arith))
      (omega arith))

-- The two fields of the byte.
pub header_fields :
    (o k : ℕ)
    → o ≤ 9
    → k ≤ 7
    → (bit_or (o * 2 ^ 3 % 256) k / 2 ^ 3 ≡ o) × (bit_and (bit_or (o * 2 ^ 3 % 256) k) 7 ≡ k)
header_fields o k ho hk =
    rw (header_lem o k ho hk) (omega arith, rw (low_three (o * 8 + k) (omega arith)) (omega arith))
