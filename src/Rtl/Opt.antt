-- ===== src/Rtl/Opt.antt =====
-- The passes of src/rtl-opt.c over a whole unit.
pub mod Live
pub mod Kill
pub mod Visit
pub mod Branch
pub mod Reduced
pub mod Decondition
pub mod Dead
pub mod Alias
pub mod Folding
pub mod Vector
pub mod FoldRegisters
