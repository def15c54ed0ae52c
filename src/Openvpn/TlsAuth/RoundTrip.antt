-- ===== src/Openvpn/TlsAuth/RoundTrip.antt =====
-- What one end wraps the other unwraps, and nothing that does not carry the HMAC of its bytes.
use synology_filestation.Prelude.{
  ℕ, ◌≡◌, refl, sym, ap, ◌∙◌, some, List, [], ◌++◌, append_assoc, length, length-append, take, drop,
  drop-append, range?, range?-append, arith,
}
use synology_filestation.Prelude.Bytes.{IsU32, be32, from_be, from_be-be32}
use synology_filestation.Openvpn.Crypto.{Hmac}
use synology_filestation.Openvpn.Error.{ok, ◌>>=◌}
use synology_filestation.Openvpn.Packet.{
  ControlPacket, IsSession, encode_prefix, encode_tail, decode,
}
use synology_filestation.Openvpn.Packet.RoundTrip.{IsPacket, decode-encode}
use synology_filestation.Openvpn.TlsAuth.{TlsAuth, wrap, unwrap, verify}

-- The four parts of a datagram.
module _ (prefix mac replay tail : List ℕ) (hp : length prefix ≡ 9) (hm : length mac ≡ 64)
    (hr : length replay ≡ 8) where
  abbrev datagram : List ℕ
  datagram = prefix ++ (mac ++ (replay ++ tail))

  prefix_part : range? 0 9 datagram ≡ some prefix
  prefix_part = range?-append 0 9 [] prefix (mac ++ (replay ++ tail)) refl (omega (arith, hp))

  mac_part : range? 9 73 datagram ≡ some mac
  mac_part = range?-append 9 73 prefix mac (replay ++ tail) hp (omega (arith, hm))

  replay_part : range? 73 81 datagram ≡ some replay
  replay_part =
      ap (range? 73 81) (sym (append_assoc prefix mac (replay ++ tail)))
      ∙ range?-append 73 81 (prefix ++ mac) replay tail
          (omega (arith, hp, hm, length-append prefix mac)) (omega (arith, hr))

  tail_part : drop 81 datagram ≡ tail
  tail_part =
      ap (drop 81) (
        ap (prefix ++◌) (sym (append_assoc mac replay tail))
        ∙ sym (append_assoc prefix (mac ++ replay) tail))
      ∙ drop-append 81 (prefix ++ (mac ++ replay)) tail (
          omega (arith, hp, hm, hr, length-append prefix (mac ++ replay), length-append mac replay))

  -- What `unwrap` does with them.
  unwrap_parts :
      (hmac : Hmac) (auth : TlsAuth)
      → unwrap hmac auth datagram ≡ (
          verify hmac auth.in_key (replay ++ (prefix ++ tail)) mac >>= λ _.
          decode prefix tail >>= λ packet. ok (
            packet,
            record { packet_id = from_be (take 4 replay); net_time = from_be (drop 4 replay) },
          ))
  unfolding unwrap
  unwrap_parts hmac auth = rw (prefix_part, mac_part, replay_part, tail_part)

length-encode_prefix : (p : ControlPacket) → IsSession p.session_id → length (encode_prefix p) ≡ 9
unfolding encode_prefix
length-encode_prefix p h = omega (arith, h)

-- A well-formed packet that one end wraps, under a packet id and a time of 32 bits, is unwrapped
-- to the packet, the packet id and the time by an end that verifies with the key it was signed with.
pub unwrap-wrap :
    (hmac : Hmac) (sender receiver : TlsAuth) (p : ControlPacket) (packet_id net_time : ℕ)
    → receiver.in_key ≡ sender.out_key
    → IsPacket p
    → IsU32 packet_id
    → IsU32 net_time
    → unwrap hmac receiver (wrap hmac sender p packet_id net_time)
      ≡ ok (p, record { packet_id = packet_id; net_time = net_time })
unfolding unwrap wrap verify
unwrap-wrap hmac sender receiver p packet_id net_time keys hp hid htime =
    unwrap_parts (encode_prefix p) mac (be32 packet_id ++ be32 net_time) (encode_tail p)
      (length-encode_prefix p hp.session) (hmac.length-sign sender.out_key signed) refl hmac
      receiver
    ∙ rw (
      keys,
      (hmac.verify_iff sender.out_key signed mac).1 refl,
      decode-encode p hp,
      from_be-be32 packet_id hid,
      from_be-be32 net_time htime,
    )
  where
    signed : List ℕ
    signed = be32 packet_id ++ (be32 net_time ++ (encode_prefix p ++ encode_tail p))

    mac : List ℕ
    mac = hmac.sign sender.out_key signed
