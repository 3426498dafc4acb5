-- ===== src/Array.antt =====
-- The array functions of src/ucl_util.c.
pub mod Vector
pub mod Ops
pub mod Spec
pub mod Elements
mod Index
pub mod Refines
pub mod Reads
mod Merge
mod Examples
