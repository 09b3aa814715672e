-- ===== src/Rtl.antt =====
-- The RTL (register transfer language) engine: src/rtl*.c and src/rtl*.h.
pub mod Opcode
pub mod Unit
pub mod Block
pub mod Mulh
pub mod Fold
pub mod Insn
pub mod Opt
pub mod Builder
