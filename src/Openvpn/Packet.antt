-- ===== src/Openvpn/Packet.antt =====
-- rust/synology-filestation-openvpn/src/packet.rs: control packets on the wire, and the
-- bounds-checked reader. Bytes are native numbers, slices are lists, and the `[u8; 8]` of a
-- session id is a list whose length `IsSession` states.
pub mod Header
pub mod Reader
pub mod RoundTrip
pub mod Safety
mod Runs
use synology_filestation.Prelude.{
  ℕ, zero, suc, ◌+◌, ◌-◌, ◌*◌, ◌/◌, ◌%◌, ◌^◌, ◌≤◌, ◌<◌, ◌≡◌, Bool, true, false, Option, some, none,
  List, [], ◌∷◌, ◌++◌, length, drop, get_elem?, range?, All, ltb, leb, ◌==◌, if◌then◌else◌, bit_and,
  bit_or,
}
use synology_filestation.Prelude.Bytes.{IsByte, IsU32, be32, from_be}
use synology_filestation.Openvpn.Error.{
  Error, Result, ok, err, panic, ◌>>=◌, ok_or, expect, truncated, unknown_opcode, too_many_acks,
}
use synology_filestation.Openvpn.KeyId
use synology_filestation.Openvpn.KeyId.{KeyId, IsKeyId}
use synology_filestation.Openvpn.Opcode.{
  Opcode, as_u8, carries_packet_id, control_soft_reset_v1, control_v1, ack_v1, data_v1,
  control_hard_reset_client_v2, control_hard_reset_server_v2, data_v2,
}

abbrev pub SessionId : Type 0
SessionId = List ℕ

abbrev pub session_len : ℕ
session_len = 8

abbrev pub IsSession : SessionId → Type 0
IsSession s = length s ≡ session_len

-- `Opcode::from_u8`
unfoldable pub from_u8 : ℕ → Result Opcode
from_u8 value =
    if value == 3
    then ok control_soft_reset_v1
    else if value == 4
    then ok control_v1
    else if value == 5
    then ok ack_v1
    else if value == 6
    then ok data_v1
    else if value == 7
    then ok control_hard_reset_client_v2
    else if value == 8
    then ok control_hard_reset_server_v2
    else if value == 9
    then ok data_v2
    else err (unknown_opcode value)

pub record Acks : Type 0 where
  pub ids : List ℕ
  pub session_id : SessionId

abbrev pub max_acks : ℕ
max_acks = 8

-- `Acks::new`
unfoldable pub new_acks : List ℕ → SessionId → Result Acks
new_acks ids session_id =
    if ltb max_acks (length ids)
    then err (too_many_acks (length ids))
    else ok (record { ids = ids; session_id = session_id })

pub record ControlPacket : Type 0 where
  pub opcode : Opcode
  pub key_id : KeyId
  pub session_id : SessionId
  pub acks : Option Acks
  pub packet_id : Option ℕ
  pub payload : List ℕ

abbrev pub opcode_shift : ℕ
opcode_shift = 3

-- The opcode/key-id byte and the session id.
unfoldable pub encode_prefix : ControlPacket → List ℕ
encode_prefix p = bit_or (as_u8 p.opcode * 2 ^ opcode_shift % 256) p.key_id ∷ p.session_id

unfoldable pub encode_ids : List ℕ → List ℕ
encode_ids [] = []
encode_ids (id ∷ ids) = be32 id ++ encode_ids ids

unfoldable pub encode_acks : Option Acks → List ℕ
encode_acks none = 0 ∷ []
encode_acks (some acks) = (length acks.ids % 256) ∷ (encode_ids acks.ids ++ acks.session_id)

unfoldable pub encode_packet_id : Option ℕ → List ℕ
encode_packet_id none = []
encode_packet_id (some id) = be32 id

-- Everything after the envelope: acks, message id, payload.
unfoldable pub encode_tail : ControlPacket → List ℕ
unfolding encode_acks encode_packet_id encode_ids
encode_tail p = encode_acks p.acks ++ (encode_packet_id p.packet_id ++ p.payload)

-- The bounds-checked reader.
pub record Cursor : Type 0 where
  pub bytes : List ℕ
  pub at : ℕ

-- The slice is `none` where it would end past the bytes.
unfoldable pub take_bytes : Cursor → ℕ → Error → Result (List ℕ × Cursor)
take_bytes c n e = do
  slice ← ok_or (range? c.at (c.at + n) c.bytes) e
  ok (slice, record c { at = c.at + n })

-- A slice as an array of `n`, or a panic.
abbrev pub array : ℕ → List ℕ → Result (List ℕ)
array n bytes = if length bytes == n then ok bytes else panic

unfoldable pub read_u8 : Cursor → Error → Result (ℕ × Cursor)
unfolding take_bytes
read_u8 c e = do (slice, c') ← take_bytes c 1 e; byte ← expect (get_elem? slice 0); ok (byte, c')

unfoldable pub read_u32 : Cursor → Error → Result (ℕ × Cursor)
unfolding take_bytes
read_u32 c e = do (slice, c') ← take_bytes c 4 e; bytes ← array 4 slice; ok (from_be bytes, c')

unfoldable pub read_session_id : Cursor → Result (SessionId × Cursor)
unfolding take_bytes
read_session_id c = do
  (slice, c') ← take_bytes c session_len (truncated "an acked session id")
  bytes ← array session_len slice
  ok (bytes, c')

-- `&self.bytes[self.at..]`
unfoldable pub rest : Cursor → Result (List ℕ)
rest c = if leb c.at (length c.bytes) then ok (drop c.at c.bytes) else panic

unfoldable pub read_ids : ℕ → Cursor → Result (List ℕ × Cursor)
unfolding read_u32
read_ids zero c = ok ([], c)
read_ids (suc count) c = do
  (id, c') ← read_u32 c (truncated "an acknowledged packet id")
  (ids, c'') ← read_ids count c'
  ok (id ∷ ids, c'')

unfoldable pub read_acks : ℕ → Cursor → Result (Option Acks × Cursor)
unfolding read_ids read_session_id new_acks
read_acks count c =
    if ltb 0 count
    then (do
      (ids, c') ← read_ids count c
      (session_id, c'') ← read_session_id c'
      acks ← new_acks ids session_id
      ok (some acks, c''))
    else ok (none, c)

unfoldable pub read_packet_id : Opcode → Cursor → Result (Option ℕ × Cursor)
unfolding read_u32 carries_packet_id
read_packet_id opcode c =
    if carries_packet_id opcode
    then (do (id, c') ← read_u32 c (truncated "a packet id"); ok (some id, c'))
    else ok (none, c)

unfoldable pub decode : List ℕ → List ℕ → Result ControlPacket
unfolding read_u8 read_acks read_packet_id rest from_u8
decode prefix tail = do
  header ← ok_or (get_elem? prefix 0) (truncated "an opcode")
  opcode ← from_u8 (header / 2 ^ opcode_shift)
  key_id ← expect (KeyId.new (bit_and header KeyId.mask))
  slice ← ok_or (range? 1 (1 + session_len) prefix) (truncated "a session id")
  session_id ← array session_len slice
  (count, c) ← read_u8 (record { bytes = tail; at = 0 }) (truncated "an ack count")
  (acks, c') ← read_acks count c
  (packet_id, c'') ← read_packet_id opcode c'
  payload ← rest c''
  ok (record {
    opcode = opcode;
    key_id = key_id;
    session_id = session_id;
    acks = acks;
    packet_id = packet_id;
    payload = payload;
  })
