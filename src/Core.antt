-- ===== src/Core.antt =====
-- dialects/core: the integer operations of the compiler and how their normalizers compute them.
pub mod Ops
pub mod Fold
pub mod TruthTable
pub mod MergeCmps
pub mod Bitwise
pub mod Bit2
pub mod Trait
pub mod Wrap
pub mod Ncmp
pub mod Conv
pub mod Normalize
