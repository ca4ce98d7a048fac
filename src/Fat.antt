-- ===== src/Fat.antt =====
-- src/fat_ro.c: a reader of FAT12 and FAT16 volumes. The block device is a function from a block
-- number to the 512 bytes of the block, or `none` where storage_read_blocks returns -1.
pub mod Volume
pub mod Chain
pub mod Directory
pub mod File
pub mod Entry
pub mod Listing
pub mod Content
pub mod Block
pub mod Read
pub mod Reader
mod Tests
pub mod Load
pub mod Device
pub mod Search
