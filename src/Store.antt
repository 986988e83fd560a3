-- ===== src/Store.antt =====
-- The file system on the SATA disk.
mod Tests
pub mod Disk
pub mod Entry
pub mod Inode
pub mod Paths
pub mod Inodes
pub mod Files
pub mod Folders
pub mod Placed
pub mod Lost
