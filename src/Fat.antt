-- ===== src/Fat.antt =====
-- src/fs/fat.rs: FAT32 on a block device.
pub mod Volume
pub mod Names
pub mod Table
pub mod Slot
pub mod Directory
pub mod Path
pub mod File
pub mod ReadOnly
mod Tests
