-- ===== src/Openvpn/StaticKey/Runs.antt =====
-- Runs of the static key, and the theorems about it at concrete keys.
use synology_filestation.Prelude.{ℕ, ◌≡◌, ◌↔◌, refl, List, [], ◌∷◌, length, All, replicate}
use synology_filestation.Prelude.Bytes.{IsByte}
use synology_filestation.Openvpn.Error.{ok, err, key_not_hex, key_length}
use synology_filestation.Openvpn.StaticKey.{static_key_len, from_hex}
use synology_filestation.Openvpn.StaticKey.Decoded.{from_hex_iff}
use synology_filestation.Openvpn.StaticKey.Spelled.{Spells, halves}

not_hex_run : from_hex (b'a' ∷ b'g' ∷ []) ≡ err (key_length 1)
unfolding from_hex
not_hex_run = refl

odd_run : from_hex (b'a' ∷ 10 ∷ b'0' ∷ b'F' ∷ []) ≡ err key_not_hex
unfolding from_hex
odd_run = refl

-- A byte in capitals, and behind a line end the same in small letters.
abbrev text : List ℕ
text = b'A' ∷ b'F' ∷ 10 ∷ b'a' ∷ b'f' ∷ replicate 508 b'0'

abbrev key : List ℕ
key = 175 ∷ 175 ∷ replicate 254 0

key_run : from_hex text ≡ ok key
unfolding from_hex
key_run = refl

from_hex_iff_example :
    (from_hex text ≡ ok key)
    ↔ (length key ≡ static_key_len × All IsByte key × Spells text (halves key))
from_hex_iff_example = from_hex_iff text key
