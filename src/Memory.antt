-- ===== src/Memory.antt =====
-- The Memory process (Memory/src): paged RAM behind a hashed page table, and a page cache before it.
pub mod Config
pub mod Hash
pub mod Ram
pub mod Cache
pub mod Access
