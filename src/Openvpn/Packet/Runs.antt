-- ===== src/Openvpn/Packet/Runs.antt =====
-- Packets at concrete bytes.
use synology_filestation.Prelude.{
  ℕ, ◌≡◌, refl, some, List, [], ◌∷◌, replicate, All, range?, ◌<◌, arith,
}
use synology_filestation.Prelude.Bytes.{from_be}
use synology_filestation.Openvpn.Error.{ok, err, truncated, unknown_opcode, too_many_acks}
use synology_filestation.Openvpn.Error.Ensures.{Ensures}
use synology_filestation.Openvpn.KeyId
use synology_filestation.Openvpn.KeyId.{IsKeyId}
use synology_filestation.Openvpn.Opcode.{as_u8, carries_packet_id, control_v1}
use synology_filestation.Openvpn.Packet.{
  ControlPacket, decode, encode_prefix, encode_tail, take_bytes,
}
use synology_filestation.Openvpn.Packet.RoundTrip.{IsPacket, decode-encode}
use synology_filestation.Openvpn.Packet.Safety.{IsDecoded, decode_safe}

abbrev ours : List ℕ
ours = 1 ∷ 2 ∷ 3 ∷ 4 ∷ 5 ∷ 6 ∷ 7 ∷ 8 ∷ []

abbrev theirs : List ℕ
theirs = replicate 8 9

abbrev record_packet : ControlPacket
record_packet = record {
  opcode = control_v1;
  key_id = 2;
  session_id = ours;
  acks = some (record { ids = 0 ∷ 258 ∷ []; session_id = theirs });
  packet_id = some 65537;
  payload = 22 ∷ 3 ∷ [];
}

record_bytes : encode_prefix record_packet ≡ 34 ∷ ours
unfolding encode_prefix as_u8
record_bytes = refl

record_packet-IsPacket : IsPacket record_packet
unfolding carries_packet_id
record_packet-IsPacket = record {
  key_id = omega arith;
  session = refl;
  acks = record { some_id = omega arith; few_ids = omega arith; ids = omega arith; session = refl };
  packet_id = (refl, omega arith);
}

decode-encode_example :
    decode (encode_prefix record_packet) (encode_tail record_packet) ≡ ok record_packet
decode-encode_example = decode-encode record_packet record_packet-IsPacket

no_opcode : decode [] [] ≡ err (truncated "an opcode")
unfolding decode
no_opcode = refl

unknown : decode (0 ∷ ours) [] ≡ err (unknown_opcode 0)
unfolding decode
unknown = refl

nine_acks : decode (34 ∷ ours) (9 ∷ replicate 44 0) ≡ err (too_many_acks 9)
unfolding decode KeyId.new take_bytes range? from_be
nine_acks = refl

decode_safe_example : Ensures IsDecoded (decode (34 ∷ ours) (9 ∷ []))
decode_safe_example = decode_safe (34 ∷ ours) (9 ∷ []) (omega arith)

abbrev hollow : ControlPacket
hollow = record record_packet { acks = some (record { ids = []; session_id = theirs }) }

hollow_bytes : All (λ b. b < 256) (encode_prefix hollow)
unfolding encode_prefix as_u8
hollow_bytes = omega arith
