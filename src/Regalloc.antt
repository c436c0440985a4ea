-- ===== src/Regalloc.antt =====
-- src/regalloc.c and include/regalloc.h: live intervals and linear scan register allocation.
pub mod Types
pub mod Ranges
pub mod Extend
pub mod CrossCalls
pub mod Scan
pub mod Slots
pub mod Run
mod Tests
