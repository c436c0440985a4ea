-- ===== src/Opt.antt =====
-- src/opt.c: the passes of the optimiser.
pub mod Vreg
pub mod Values
pub mod Forward
pub mod Algebraic
pub mod ConstProp
pub mod CopyProp
pub mod Flow
pub mod Machine
pub mod Cfg
pub mod Dead
pub mod Dce
pub mod Simplify
pub mod Unreachable
mod Tests
