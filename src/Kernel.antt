-- ===== src/Kernel.antt =====
-- The Kernel process (Kernel/src).
pub mod Space
pub mod Program
pub mod Heap
pub mod Requests
pub mod Planner
pub mod Files
