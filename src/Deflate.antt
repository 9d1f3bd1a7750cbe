-- ===== src/Deflate.antt =====
-- efi-boot/deflate.c: the kernel's image is a gzip file, which the boot stub unpacks.
pub mod State
pub mod Huffman
pub mod Block
pub mod Crc
pub mod Gzip
pub mod Progress
pub mod Stored
pub mod Stream
pub mod Code
mod Tests
