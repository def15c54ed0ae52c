-- ===== src/Openvpn/TlsAuth/Runs.antt =====
-- Runs of the envelope with a checksum for the HMAC, and its theorems at concrete packets.
use synology_filestation.Prelude.{◌≡◌, refl, some, none, [], ◌∷◌, replicate, arith, range?}
use synology_filestation.Prelude.Bytes.{same}
use synology_filestation.Openvpn.Error.{ok, err, bad_hmac, truncated}
use synology_filestation.Openvpn.Error.Ensures.{Ensures}
use synology_filestation.Openvpn.Crypto.Sample.{sample_hmac, sign}
use synology_filestation.Openvpn.Opcode.{carries_packet_id, ack_v1}
use synology_filestation.Openvpn.Packet.{ControlPacket}
use synology_filestation.Openvpn.Packet.RoundTrip.{IsPacket}
use synology_filestation.Openvpn.Packet.Safety.{IsDecoded}
use synology_filestation.Openvpn.TlsAuth.{TlsAuth, wrap, unwrap, verify}
use synology_filestation.Openvpn.TlsAuth.RoundTrip.{unwrap-wrap}
use synology_filestation.Openvpn.TlsAuth.Authentic.{IsSigned, unwrap_safe}

abbrev client : TlsAuth
client = record { out_key = 1 ∷ 2 ∷ []; in_key = 3 ∷ [] }

abbrev server : TlsAuth
server = record { out_key = 3 ∷ []; in_key = 1 ∷ 2 ∷ [] }

abbrev bare_ack : ControlPacket
bare_ack = record {
  opcode = ack_v1;
  key_id = 0;
  session_id = replicate 8 5;
  acks = some (record { ids = 0 ∷ 1 ∷ []; session_id = replicate 8 6 });
  packet_id = none;
  payload = [];
}

bare_ack-IsPacket : IsPacket bare_ack
unfolding carries_packet_id
bare_ack-IsPacket = record {
  key_id = omega arith;
  session = refl;
  acks = record { some_id = omega arith; few_ids = omega arith; ids = omega arith; session = refl };
  packet_id = refl;
}

unwrap-wrap_example :
    unwrap sample_hmac server (wrap sample_hmac client bare_ack 9 1700000000)
    ≡ ok (bare_ack, record { packet_id = 9; net_time = 1700000000 })
unwrap-wrap_example =
    unwrap-wrap sample_hmac client server bare_ack 9 1700000000 refl bare_ack-IsPacket (omega arith)
      (omega arith)

-- A datagram with a tag of zeros.
forged : unwrap sample_hmac server (replicate 100 0) ≡ err bad_hmac
unfolding unwrap verify same sign range?
forged = refl

short : unwrap sample_hmac server (replicate 72 0) ≡ err (truncated "a tls-auth HMAC")
unfolding unwrap range?
short = refl

unwrap_safe_example :
    Ensures
      (λ r. IsSigned sample_hmac server (replicate 100 0) × IsDecoded r.0)
      (unwrap sample_hmac server (replicate 100 0))
unwrap_safe_example = unwrap_safe sample_hmac server (replicate 100 0) (omega arith)
