-- ===== src/Msgpack/Termination.antt =====
-- The rounds of the loop of `ucl_msgpack_consume`, counted against its fuel, and the numbers that they read.
pub mod Calls
pub mod TypeByte
pub mod Rounds
pub mod Loop
pub mod Total
