-- ===== src/Tests.antt =====
-- The theorems at concrete inputs, and runs of the definitions.
mod FileSystem
mod Files
mod Planner
mod Kernel
mod Ram
mod Memory
mod Serialization
mod Stack
