-- ===== src/Msgpack.antt =====
-- The MessagePack reader and writer of src/ucl_msgpack.c.
pub mod Format
mod TypeTable
pub mod Outcome
pub mod Values
pub mod Machine
pub mod Emit
pub mod Codec
pub mod Steps
pub mod Termination
pub mod OpenRoot
pub mod RoundTrip
mod Tests
mod Examples
