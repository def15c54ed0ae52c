-- ===== src/Openvpn/KeyId.antt =====
-- rust/synology-filestation-openvpn/src/packet.rs: `KeyId`, three bits that name a key generation.
use synology_filestation.Prelude.{
  ℕ, ◌+◌, ◌≤◌, ◌≡◌, ◌≢◌, refl, true, ◌&&◌, not, Option, some, none, ltb, leb, ◌==◌, if◌then◌else◌,
  bit_and, arith,
}
use synology_filestation.Prelude.Bytes.{every_below, every_below_sound}

-- `KeyId(u8)`: a number; only `first`, `new` and `next` make one.
abbrev pub KeyId : Type 0
KeyId = ℕ

abbrev pub mask : ℕ
mask = 7

abbrev pub first : KeyId
first = 0

-- None if the value does not fit in three bits.
unfoldable pub new : ℕ → Option KeyId
new value = if leb value mask then some value else none

-- The next generation, as a renegotiation would number it: 7 is followed by 1.
unfoldable pub next : KeyId → KeyId
next k = let n = bit_and (k + 1) mask in if n == 0 then 1 else n

abbrev pub IsKeyId : KeyId → Type 0
IsKeyId k = k ≤ mask

next_table : every_below 8 (λ k. ltb 0 (next k) && leb (next k) 7 && not (next k == k)) ≡ true
unfolding every_below next
next_table = refl

-- The next generation of any key id fits three bits, is not the first id, and is another one.
pub next_range : (k : KeyId) → IsKeyId k → (next k ≢ first) × IsKeyId (next k) × (next k ≢ k)
next_range k h =
    let row =
      every_below_sound 8 (λ k. ltb 0 (next k) && leb (next k) 7 && not (next k == k)) k next_table
        (omega arith) in
    ground arith
