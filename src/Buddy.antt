-- ===== src/Buddy.antt =====
-- kernel/kalloc.c: the buddy allocator of physical pages.
pub mod Layout
pub mod Bitmap
pub mod FreeList
pub mod Alloc
pub mod Init
mod Tests
