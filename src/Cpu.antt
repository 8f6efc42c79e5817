-- ===== src/Cpu.antt =====
-- CPU/src: a program's stack.
pub mod Stack
