-- ===== src/Common.antt =====
-- common/: the shared types, the object pools and the queue between threads.
pub mod Types
pub mod MemPool
pub mod OptMemPool
pub mod LfQueue
pub mod Rings
