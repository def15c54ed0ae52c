-- ===== src/Openvpn/StaticKey/Hex.antt =====
-- A byte from its two halves, and the halves of a key that the two ends take.
use synology_filestation.Prelude.{ℕ, ◌*◌, ◌/◌, ◌%◌, ◌^◌, ◌≡◌, refl, true, ◌==◌, ==_iff, bit_or}
use synology_filestation.Prelude.Bytes.{IsByte, every_below, every_below_sound}
use synology_filestation.Openvpn.StaticKey.{
  StaticKey, normal, inverse, bidirectional, out_hmac, in_hmac,
}

nibbles_table : every_below 256 (λ b. bit_or (b / 16 * 2 ^ 4 % 256) (b % 16) == b) ≡ true
unfolding every_below
nibbles_table = refl

pub nibbles : (b : ℕ) → IsByte b → bit_or (b / 16 * 2 ^ 4 % 256) (b % 16) ≡ b
nibbles b h =
    (==_iff _ _).0
      (every_below_sound 256 (λ b. bit_or (b / 16 * 2 ^ 4 % 256) (b % 16) == b) b nibbles_table h)

-- The two ends of a connection verify with the key that the other signs with: `normal` with
-- `inverse` either way round, and `bidirectional` with itself.
pub directions_pair :
    (key : StaticKey)
    → (out_hmac key normal ≡ in_hmac key inverse)
      × (out_hmac key inverse ≡ in_hmac key normal)
      × (out_hmac key bidirectional ≡ in_hmac key bidirectional)
unfolding out_hmac in_hmac
directions_pair key = (refl, refl, refl)
