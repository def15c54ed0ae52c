-- ===== src/Openvpn/TlsAuth.antt =====
-- rust/synology-filestation-openvpn/src/tls_auth.rs: the HMAC over every control packet.
pub mod RoundTrip
pub mod Authentic
mod Runs
use synology_filestation.Prelude.{
  ℕ, zero, suc, ◌+◌, ◌≤◌, ◌<◌, ◌≡◌, Bool, true, false, Option, some, none, List, [], ◌∷◌, ◌++◌,
  length, take, drop, range?, if◌then◌else◌,
}
use synology_filestation.Prelude.Bytes.{be32, from_be}
use synology_filestation.Openvpn.Crypto.{Hmac}
use synology_filestation.Openvpn.Error.{
  Error, Result, ok, err, panic, ◌>>=◌, ok_or, truncated, bad_hmac,
}
use synology_filestation.Openvpn.Packet.{
  ControlPacket, encode_prefix, encode_tail, decode, session_len,
}
use synology_filestation.Openvpn.StaticKey.{StaticKey, KeyDirection, out_hmac, in_hmac}

abbrev pub hmac_len : ℕ
hmac_len = 64

pub record TlsAuthHeader : Type 0 where
  pub packet_id : ℕ
  pub net_time : ℕ

pub record TlsAuth : Type 0 where
  pub out_key : List ℕ
  pub in_key : List ℕ

unfoldable pub new : StaticKey → KeyDirection → TlsAuth
new key direction = record { out_key = out_hmac key direction; in_key = in_hmac key direction }

module _ (hmac : Hmac) where
  unfoldable pub wrap : TlsAuth → ControlPacket → ℕ → ℕ → List ℕ
  wrap auth packet packet_id net_time =
      let prefix = encode_prefix packet in
      let tail = encode_tail packet in
      let signed = be32 packet_id ++ (be32 net_time ++ (prefix ++ tail)) in
      let mac = hmac.sign auth.out_key signed in
      prefix ++ (mac ++ ((be32 packet_id ++ be32 net_time) ++ tail))

  unfoldable pub verify : List ℕ → List ℕ → List ℕ → Result (Unit {0})
  verify key message expected = if hmac.verify key message expected then ok tt else err bad_hmac

  unfoldable pub unwrap : TlsAuth → List ℕ → Result (ControlPacket × TlsAuthHeader)
  unfolding verify
  unwrap auth datagram = do
    let prefix_len = 1 + session_len
    prefix ← ok_or (range? 0 prefix_len datagram) (truncated "an opcode and session id")
    mac ← ok_or (range? prefix_len (prefix_len + hmac_len) datagram) (truncated "a tls-auth HMAC")
    replay ←
        ok_or (range? (prefix_len + hmac_len) (prefix_len + hmac_len + 8) datagram)
          (truncated "a tls-auth packet id")
    let tail = drop (prefix_len + hmac_len + 8) datagram
    let signed = replay ++ (prefix ++ tail)
    _ ← verify auth.in_key signed mac
    packet ← decode prefix tail
    ok (packet, record { packet_id = from_be (take 4 replay); net_time = from_be (drop 4 replay) })
