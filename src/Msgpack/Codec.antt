-- ===== src/Msgpack/Codec.antt =====
-- One value between writer and reader: the type byte, the length and the value function together.
mod Fields
pub mod Reads
pub mod Scalars
pub mod Strings
pub mod Headers
pub mod Keys
