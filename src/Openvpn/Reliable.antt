-- ===== src/Openvpn/Reliable.antt =====
-- rust/synology-filestation-openvpn/src/reliable.rs: the windowed retransmission layer under the
-- control channel. An `Instant` and a `Duration` are numbers of nanoseconds, without a bound.
pub mod Send
pub mod Recv
