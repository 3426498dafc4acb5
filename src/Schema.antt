-- ===== src/Schema.antt =====
-- The schema validator, src/ucl_schema.c, on objects as trees.
pub mod Words
pub mod Values
pub mod Checks
pub mod Rules
pub mod Refs
pub mod Containers
pub mod Objects
pub mod Arrays
pub mod Validate
mod Counts
pub mod Says
mod Additional
mod Samples
mod Examples
pub mod Logic
pub mod Ends
