-- ===== src/Openvpn/Data.antt =====
-- rust/synology-filestation-openvpn/src/data.rs: the data channel, which turns the tunnel's packets
-- into datagrams and back. The arrays of keys are lists, and the `assert` in `copy_from_slice` holds
-- by the length tested before it.
pub mod RoundTrip
pub mod Sequence
pub mod Replayed
pub mod Authentic
mod Runs
use synology_filestation.Prelude.{
  ℕ, zero, suc, ◌+◌, ◌-◌, ◌*◌, ◌/◌, ◌%◌, ◌^◌, ◌≤◌, ◌<◌, ◌≡◌, Bool, true, false, not, Option, some,
  none, List, [], ◌∷◌, ◌++◌, length, take, drop, ltb, leb, ◌==◌, if◌then◌else◌, bit_and, bit_or,
}
use synology_filestation.Prelude.Bytes.{be32, from_be}
use synology_filestation.Openvpn.Crypto.{Hmac, Cipher}
use synology_filestation.Openvpn.Error.{
  Error, Result, ok, err, panic, ◌>>=◌, ok_or, expect, truncated, unexpected_data_opcode,
  other_key_id, bad_hmac, bad_padding, replayed, packet_id_exhausted,
}
use synology_filestation.Openvpn.KeyId
use synology_filestation.Openvpn.KeyId.{KeyId}
use synology_filestation.Openvpn.Opcode.{Opcode, as_u8, data_v1, data_v2}
use synology_filestation.Openvpn.Packet.{from_u8}
use synology_filestation.Openvpn.Replay
use synology_filestation.Openvpn.Replay.{ReplayWindow}

abbrev pub cipher_key_len : ℕ
cipher_key_len = 32

abbrev pub hmac_key_len : ℕ
hmac_key_len = 64

abbrev pub iv_len : ℕ
iv_len = 16

abbrev pub header_v2_len : ℕ
header_v2_len = 4

abbrev pub header_v1_len : ℕ
header_v1_len = 1

pub record DataKeys : Type 0 where
  pub encrypt_cipher : List ℕ
  pub encrypt_hmac : List ℕ
  pub decrypt_cipher : List ℕ
  pub decrypt_hmac : List ℕ

-- `&bytes[at..at + n]` in bounds.
abbrev slice : List ℕ → ℕ → ℕ → List ℕ
slice bytes at n = take n (drop at bytes)

unfoldable pub split : List ℕ → ℕ → ℕ → Result DataKeys
split expansion out_slot in_slot =
    if ltb (length expansion) 256
    then err (truncated "a key expansion")
    else ok (record {
      encrypt_cipher = slice expansion (out_slot * 128) cipher_key_len;
      encrypt_hmac = slice expansion (out_slot * 128 + 64) hmac_key_len;
      decrypt_cipher = slice expansion (in_slot * 128) cipher_key_len;
      decrypt_hmac = slice expansion (in_slot * 128 + 64) hmac_key_len;
    })

unfoldable pub for_client : List ℕ → Result DataKeys
unfolding split
for_client expansion = split expansion 0 1

unfoldable pub for_server : List ℕ → Result DataKeys
unfolding split
for_server expansion = split expansion 1 0

abbrev pub PeerId : Type 0
PeerId = ℕ

abbrev pub peer_id_max : ℕ
peer_id_max = 16777215

unfoldable pub peer_id : ℕ → Option PeerId
peer_id value = if leb value peer_id_max then some value else none

pub record DataChannel : Type 0 where
  pub keys : DataKeys
  pub peer_id : Option PeerId
  pub key_id : KeyId
  pub next_packet_id : ℕ
  pub replay : ReplayWindow

unfoldable pub new : DataKeys → Option PeerId → KeyId → DataChannel
new keys peer_id key_id = record {
  keys = keys;
  peer_id = peer_id;
  key_id = key_id;
  next_packet_id = 1;
  replay = Replay.new;
}

-- The opcode and key id, and the peer id of the longer form.
unfoldable pub header : Option PeerId → KeyId → List ℕ
unfolding as_u8
header (some peer_id) key_id = bit_or (as_u8 data_v2 * 2 ^ 3 % 256) key_id ∷ drop 1 (be32 peer_id)
header none key_id = bit_or (as_u8 data_v1 * 2 ^ 3 % 256) key_id ∷ []

unfoldable pub header_end : Opcode → Result ℕ
header_end data_v2 = ok header_v2_len
header_end data_v1 = ok header_v1_len
header_end other = err (unexpected_data_opcode other)

module _ (hmac : Hmac) (cipher : Cipher) where
  -- The datagram of one packet id.
  unfoldable pub seal : DataChannel → List ℕ → List ℕ → List ℕ
  unfolding header
  seal channel payload iv =
      let plaintext = be32 channel.next_packet_id ++ payload in
      let ciphertext = cipher.encrypt channel.keys.encrypt_cipher iv plaintext in
      let tag = hmac.sign channel.keys.encrypt_hmac (iv ++ ciphertext) in
      header channel.peer_id channel.key_id ++ (tag ++ (iv ++ ciphertext))

  -- `encrypt`, with the IV drawn already. The next id does not wrap.
  unfoldable pub encrypt_with_iv : DataChannel → List ℕ → List ℕ → DataChannel × Result (List ℕ)
  unfolding seal
  encrypt_with_iv channel payload iv =
      if leb (2 ^ 32) (channel.next_packet_id + 1) then (channel, err packet_id_exhausted) else (
        record channel { next_packet_id = channel.next_packet_id + 1 },
        ok (seal channel payload iv),
      )

  -- The opcode, the lengths, the key id and the HMAC: where the header ends.
  unfoldable pub authenticate : DataChannel → List ℕ → Result ℕ
  unfolding from_u8 header_end
  authenticate channel [] = err (truncated "a data packet")
  authenticate channel (first ∷ bytes) = do
    opcode ← from_u8 (first / 2 ^ 3)
    at ← header_end opcode
    let datagram = first ∷ bytes
    let tag_end = at + hmac_key_len
    (if leb (length datagram) (tag_end + iv_len) then err (truncated "a data packet") else (do
      key_id ← expect (KeyId.new (bit_and first 7))
      (if not (key_id == channel.key_id)
          then err (other_key_id key_id channel.key_id)
          else if hmac.verify channel.keys.decrypt_hmac (drop tag_end datagram)
              (slice datagram at hmac_key_len)
          then ok at
          else err bad_hmac)))

  -- The plaintext of an authentic datagram.
  unfoldable pub open_sealed : DataChannel → List ℕ → ℕ → Result (List ℕ)
  open_sealed channel datagram at = do
    let iv = slice datagram (at + hmac_key_len) iv_len
    plaintext ←
        ok_or
          (cipher.decrypt channel.keys.decrypt_cipher iv
            (drop (at + hmac_key_len + iv_len) datagram))
          bad_padding
    if ltb (length plaintext) 4 then err (truncated "a packet id") else ok plaintext

  -- The replay window takes the packet id, at a constant time.
  unfoldable pub admit : DataChannel → Result (List ℕ) → DataChannel × Result (List ℕ)
  admit channel (ok plaintext) =
      let (window, accepted) = Replay.accept channel.replay (from_be (take 4 plaintext)) 0 in
      (record channel { replay = window }, if accepted then ok (drop 4 plaintext) else err replayed)
  admit channel (err e) = (channel, err e)
  admit channel panic = (channel, panic)

  unfoldable pub decrypt : DataChannel → List ℕ → DataChannel × Result (List ℕ)
  unfolding authenticate open_sealed admit
  decrypt channel datagram =
      admit channel (authenticate channel datagram >>= λ at. open_sealed channel datagram at)
