-- ===== src/Openvpn/Opcode.antt =====
-- rust/synology-filestation-openvpn/src/packet.rs: the packet kinds.
use synology_filestation.Prelude.{ℕ, Bool, true, false}

pub data Opcode : Type 0 where
  control_soft_reset_v1 control_v1 ack_v1 data_v1 : Opcode
  control_hard_reset_client_v2 control_hard_reset_server_v2 data_v2 : Opcode

-- `opcode as u8`
unfoldable pub as_u8 : Opcode → ℕ
as_u8 control_soft_reset_v1 = 3
as_u8 control_v1 = 4
as_u8 ack_v1 = 5
as_u8 data_v1 = 6
as_u8 control_hard_reset_client_v2 = 7
as_u8 control_hard_reset_server_v2 = 8
as_u8 data_v2 = 9

-- Every control packet except a bare ack is itself acknowledged.
unfoldable pub carries_packet_id : Opcode → Bool
carries_packet_id ack_v1 = false
carries_packet_id _ = true
