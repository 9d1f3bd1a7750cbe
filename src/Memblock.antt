-- ===== src/Memblock.antt =====
-- ukernel/memblock.c and include/cyanea/memblock.h: the map of physical memory at boot.
pub mod Regions
pub mod Shape
pub mod Good
pub mod Add
pub mod Isolate
pub mod Update
pub mod Alloc
mod Tests
