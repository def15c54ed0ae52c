-- ===== src/Smb.antt =====
-- rust/synology-filestation-smb: access to the shares over SMB.
pub mod Path
pub mod Handles
pub mod Framing
