-- ===== src/Xfs.antt =====
-- The XFS interface, xfs-interface/: the disk image that the simulator runs from.
pub mod Text
pub mod Layout
pub mod State
pub mod VirtualDisk
pub mod Inode
pub mod Names
pub mod Assembly
pub mod Labels
pub mod WriteFile
pub mod Programs
pub mod Files
pub mod Export
pub mod Shell
pub mod Keeps
pub mod Safety
mod Tests
