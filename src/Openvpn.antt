-- ===== src/Openvpn.antt =====
-- rust/synology-filestation-openvpn: the in-process OpenVPN client.
pub mod Opcode
pub mod KeyId
pub mod Error
pub mod Packet
pub mod Replay
pub mod Reliable
pub mod StaticKey
pub mod Crypto
pub mod TlsAuth
pub mod Data
pub mod Ports
pub mod Demux
pub mod Channel
pub mod Prf
pub mod KeyMethod
pub mod Ip
pub mod Push
pub mod Session
