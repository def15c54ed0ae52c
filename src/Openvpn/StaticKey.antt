-- ===== src/Openvpn/StaticKey.antt =====
-- rust/synology-filestation-openvpn/src/static_key.rs: the static key, decoded from hexadecimal,
-- and the half of it that each end signs with. The `[u8; 256]` of a key is a list.
pub mod Hex
pub mod Spelled
pub mod Decoded
mod Runs
use synology_filestation.Prelude.{
  ℕ, zero, suc, ◌+◌, ◌-◌, ◌*◌, ◌/◌, ◌%◌, ◌^◌, Bool, true, false, ◌&&◌, ◌||◌, not, List, [], ◌∷◌,
  length, take, drop, leb, ltb, ◌==◌, if◌then◌else◌, bit_or,
}
use synology_filestation.Openvpn.Error.{Error, Result, ok, err, ◌>>=◌, key_not_hex, key_length}

abbrev pub static_key_len : ℕ
static_key_len = 256

abbrev pub cipher_len : ℕ
cipher_len = 64

abbrev pub hmac_len : ℕ
hmac_len = 64

abbrev pub slot_len : ℕ
slot_len = cipher_len + hmac_len

abbrev pub StaticKey : Type 0
StaticKey = List ℕ

-- `u8::is_ascii_whitespace`
unfoldable pub is_ascii_whitespace : ℕ → Bool
is_ascii_whitespace b = b == 32 || b == 9 || b == 10 || b == 12 || b == 13

unfoldable pub hex_digit : ℕ → Result ℕ
hex_digit byte =
    if leb b'0' byte && leb byte b'9'
    then ok (byte - b'0')
    else if leb b'a' byte && leb byte b'f'
    then ok (byte - b'a' + 10)
    else if leb b'A' byte && leb byte b'F'
    then ok (byte - b'A' + 10)
    else err key_not_hex

unfoldable pub digits_of : List ℕ → List ℕ
unfolding is_ascii_whitespace
digits_of [] = []
digits_of (b ∷ hex) = let rest = digits_of hex in if is_ascii_whitespace b then rest else b ∷ rest

-- The loop over the pairs; a byte without a pair is the chunk's remainder.
unfoldable pub decode_pairs : List ℕ → Result (List ℕ)
unfolding hex_digit
decode_pairs [] = ok []
decode_pairs (a ∷ []) = ok []
decode_pairs (a ∷ b ∷ pairs) = do
  hi ← hex_digit a
  lo ← hex_digit b
  rest ← decode_pairs pairs
  ok (bit_or (hi * 2 ^ 4 % 256) lo ∷ rest)

unfoldable pub from_hex : List ℕ → Result StaticKey
unfolding digits_of decode_pairs
from_hex hex =
    let digits = digits_of hex in
    if not (length digits % 2 == 0)
    then err key_not_hex
    else if not (length digits / 2 == static_key_len)
    then err (key_length (length digits / 2))
    else decode_pairs digits

pub data KeyDirection : Type 0 where
  normal inverse bidirectional : KeyDirection

unfoldable pub out_slot : KeyDirection → ℕ
out_slot normal = 0
out_slot bidirectional = 0
out_slot inverse = 1

unfoldable pub in_slot : KeyDirection → ℕ
in_slot normal = 1
in_slot inverse = 0
in_slot bidirectional = 0

unfoldable pub hmac_slot : StaticKey → ℕ → List ℕ
hmac_slot key slot = take hmac_len (drop (slot * slot_len + cipher_len) key)

unfoldable pub out_hmac : StaticKey → KeyDirection → List ℕ
unfolding hmac_slot out_slot
out_hmac key direction = hmac_slot key (out_slot direction)

unfoldable pub in_hmac : StaticKey → KeyDirection → List ℕ
unfolding hmac_slot in_slot
in_hmac key direction = hmac_slot key (in_slot direction)
