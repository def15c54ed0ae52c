-- ===== src/Fuse.antt =====
-- rust/synology-filestation-fuse: the mounted file system.
pub mod Inodes
pub mod Blocks
