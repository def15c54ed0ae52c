-- ===== src/Openvpn/Packet/RoundTrip.antt =====
-- Decoding what was encoded.
use synology_filestation.Prelude.{
  ℕ, ◌+◌, ◌*◌, ◌%◌, ◌≤◌, ◌<◌, ◌≡◌, refl, sym, ap, ◌∙◌, true, false, Option, some, none, List, [],
  ◌∷◌, ◌++◌, append_assoc, append-nil, length, length-append, drop, range?-append, range?, All,
  lt→ltb, arith,
}
use synology_filestation.Prelude.Bytes.{IsU32}
use synology_filestation.Openvpn.Error.{ok, truncated}
use synology_filestation.Openvpn.KeyId
use synology_filestation.Openvpn.KeyId.{KeyId, IsKeyId}
use synology_filestation.Openvpn.Opcode.{Opcode, as_u8, carries_packet_id}
use synology_filestation.Openvpn.Packet.{
  Acks, ControlPacket, SessionId, IsSession, max_acks, decode, encode_prefix, encode_tail,
  encode_acks, encode_ids, encode_packet_id, read_acks, read_packet_id, new_acks,
}
use synology_filestation.Openvpn.Packet.Header.{as_u8-le, from_u8-as_u8, header_fields}
use synology_filestation.Openvpn.Packet.Reader.{
  cursor, drop_past, read_u8_ahead, read_u32_ahead, read_session_id_ahead, length-encode_ids,
  read_ids_ahead, rest_ahead,
}

-- Acknowledgements as `Acks::new` makes them, with one id at least.
pub record IsAcks (a : Acks) : Type 0 where
  pub some_id : 0 < length a.ids
  pub few_ids : length a.ids ≤ max_acks
  pub ids : All IsU32 a.ids
  pub session : IsSession a.session_id

abbrev pub IsAcksOption : Option Acks → Type 0
IsAcksOption none = Unit
IsAcksOption (some a) = IsAcks a

-- A message id is carried by every packet but a bare ack.
abbrev pub IsPacketId : Opcode → Option ℕ → Type 0
IsPacketId o none = carries_packet_id o ≡ false
IsPacketId o (some id) = (carries_packet_id o ≡ true) × IsU32 id

pub record IsPacket (p : ControlPacket) : Type 0 where
  pub key_id : IsKeyId p.key_id
  pub session : IsSession p.session_id
  pub acks : IsAcksOption p.acks
  pub packet_id : IsPacketId p.opcode p.packet_id

-- The count byte of the acknowledgements, and what follows it.
abbrev acks_count : Option Acks → ℕ
acks_count none = 0
acks_count (some a) = length a.ids % 256

abbrev acks_body : Option Acks → List ℕ
acks_body none = []
acks_body (some a) = encode_ids a.ids ++ a.session_id

encode_acks_parts : (acks : Option Acks) → encode_acks acks ≡ acks_count acks ∷ acks_body acks
unfolding encode_acks
encode_acks_parts none = refl
encode_acks_parts (some a) = refl

pub new_acks_few : (a : Acks) → length a.ids ≤ max_acks → new_acks a.ids a.session_id ≡ ok a
unfolding new_acks
new_acks_few a few = ground arith

read_acks_ahead :
    (bytes : List ℕ) (at : ℕ) (acks : Option Acks) (ys : List ℕ)
    → IsAcksOption acks
    → drop at bytes ≡ acks_body acks ++ ys
    → read_acks (acks_count acks) (cursor bytes at)
      ≡ ok (acks, cursor bytes (at + length (acks_body acks)))
unfolding read_acks
read_acks_ahead bytes at none ys h ahead = ap (λ (a : ℕ). ok (none, cursor bytes a)) (omega arith)
read_acks_ahead bytes at (some a) ys h ahead =
    rw
      (
        count,
        lt→ltb 0 (length a.ids) h.some_id,
        read_ids_ahead bytes at a.ids (a.session_id ++ ys) h.ids ahead',
        read_session_id_ahead bytes (at + 4 * length a.ids) a.session_id ys h.session past,
        new_acks_few a h.few_ids,
      )
      (ap (λ (n : ℕ). ok (some a, cursor bytes n))
        (omega (
          arith,
          h.session,
          length-append (encode_ids a.ids) a.session_id,
          length-encode_ids a.ids,
        )))
  where
    count : length a.ids % 256 ≡ length a.ids
    count = omega (arith, h.few_ids)

    ahead' : drop at bytes ≡ encode_ids a.ids ++ (a.session_id ++ ys)
    ahead' = ahead ∙ append_assoc (encode_ids a.ids) a.session_id ys

    past : drop (at + 4 * length a.ids) bytes ≡ a.session_id ++ ys
    past =
        drop_past bytes at (encode_ids a.ids) (a.session_id ++ ys) ahead' (4 * length a.ids)
          (length-encode_ids a.ids)

read_packet_id_ahead :
    (bytes : List ℕ) (at : ℕ) (o : Opcode) (id : Option ℕ) (ys : List ℕ)
    → IsPacketId o id
    → drop at bytes ≡ encode_packet_id id ++ ys
    → read_packet_id o (cursor bytes at) ≡ ok (id, cursor bytes (at + length (encode_packet_id id)))
unfolding read_packet_id encode_packet_id
read_packet_id_ahead bytes at o none ys h ahead =
    rw h (ap (λ (a : ℕ). ok (none, cursor bytes a)) (omega arith))
read_packet_id_ahead bytes at o (some id) ys h ahead =
    rw (h.0, read_u32_ahead bytes at id ys (truncated "a packet id") h.1 ahead)

-- Where each part of an encoded tail lies.
module _ (p : ControlPacket) where
  tail_parts :
      encode_tail p
      ≡ acks_count p.acks ∷ (acks_body p.acks ++ (encode_packet_id p.packet_id ++ p.payload))
  unfolding encode_tail
  tail_parts = rw (encode_acks_parts p.acks)

  past_count :
      drop 1 (encode_tail p) ≡ acks_body p.acks ++ (encode_packet_id p.packet_id ++ p.payload)
  past_count = ap (drop 1) tail_parts

  past_acks :
      drop (1 + length (acks_body p.acks)) (encode_tail p)
      ≡ encode_packet_id p.packet_id ++ p.payload
  past_acks = drop_past (encode_tail p) 1 (acks_body p.acks) _ past_count _ refl

  past_packet_id :
      drop (1 + length (acks_body p.acks) + length (encode_packet_id p.packet_id)) (encode_tail p)
      ≡ p.payload
  past_packet_id =
      drop_past (encode_tail p) (1 + length (acks_body p.acks)) (encode_packet_id p.packet_id)
        p.payload past_acks _ refl

  ends_inside :
      1 + length (acks_body p.acks) + length (encode_packet_id p.packet_id) ≤ length (encode_tail p)
  ends_inside = omega (
    arith,
    ap length tail_parts,
    length-append (acks_body p.acks) (encode_packet_id p.packet_id ++ p.payload),
    length-append (encode_packet_id p.packet_id) p.payload,
  )

prefix_session : (b : ℕ) (s : SessionId) → IsSession s → range? 1 9 (b ∷ s) ≡ some s
prefix_session b s h =
    ap (λ (xs : List ℕ). range? 1 9 (b ∷ xs)) (sym (append-nil s))
    ∙ range?-append 1 9 (b ∷ []) s [] refl (omega arith)

new_key_id : (k : KeyId) → IsKeyId k → KeyId.new k ≡ some k
new_key_id k h = unfold KeyId.new in ground arith

-- Decoding the prefix and the tail that a well-formed control packet encodes to gives the packet
-- back.
pub decode-encode :
    (p : ControlPacket) → IsPacket p → decode (encode_prefix p) (encode_tail p) ≡ ok p
unfolding decode encode_prefix
decode-encode p h =
    let fields = header_fields (as_u8 p.opcode) p.key_id (as_u8-le p.opcode) h.key_id in
    rw (
      fields.0,
      fields.1,
      from_u8-as_u8 p.opcode,
      new_key_id p.key_id h.key_id,
      prefix_session _ p.session_id h.session,
      h.session,
      read_u8_ahead (encode_tail p) 0 (acks_count p.acks) _ (truncated "an ack count")
          (tail_parts p),
      read_acks_ahead (encode_tail p) 1 p.acks _ h.acks (past_count p),
      read_packet_id_ahead (encode_tail p) (1 + length (acks_body p.acks)) p.opcode p.packet_id
          p.payload h.packet_id (past_acks p),
      rest_ahead (encode_tail p) _ p.payload (ends_inside p) (past_packet_id p),
    )
