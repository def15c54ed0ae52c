-- ===== src/Openvpn/Ip.antt =====
-- rust/synology-filestation-openvpn/src/ip.rs: the address that the server gives us, and what the
-- second value beside it means.
use synology_filestation.Prelude.{
  ℕ, zero, suc, ◌-◌, ◌*◌, ◌%◌, ◌^◌, not, ◌||◌, Option, some, none, List, ltb, leb, ◌==◌,
  if◌then◌else◌,
}
use synology_filestation.Prelude.Bytes.{from_be}

-- An `Ipv4Addr` is its four octets.
abbrev pub Ipv4Addr : Type 0
Ipv4Addr = List ℕ

pub record Ifconfig : Type 0 where
  pub address : Ipv4Addr
  pub prefix : ℕ

-- `leading_ones` of a word of some width.
unfoldable pub leading_ones : ℕ → ℕ → ℕ
leading_ones zero bits = 0
leading_ones (suc width) bits =
    let rest = leading_ones width (bits - 2 ^ width) in if leb (2 ^ width) bits then suc rest else 0

-- `checked_shl(..).unwrap_or(0)`
abbrev pub shifted : ℕ → ℕ → ℕ
shifted bits by = if ltb by 32 then bits * 2 ^ by % 2 ^ 32 else 0

unfoldable pub prefix_of_netmask : Ipv4Addr → Option ℕ
unfolding leading_ones
prefix_of_netmask candidate =
    let bits = from_be candidate in
    let ones = leading_ones 32 bits in
    if ones == 0 || not (shifted bits ones == 0) then none else some ones

unfoldable pub from_push : Ipv4Addr → Ipv4Addr → Ifconfig
unfolding prefix_of_netmask
from_push address second = elim (prefix_of_netmask second) [
  | some prefix ↦ record { address = address; prefix = prefix }
  | none ↦ record { address = address; prefix = 30 }
]
