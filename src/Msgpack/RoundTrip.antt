-- ===== src/Msgpack/RoundTrip.antt =====
-- Values on their way from the writer into the open containers of the reader.
pub mod Spec
pub mod Insert
pub mod Element
pub mod Scalar
pub mod Scalars
pub mod Resume
pub mod Open
pub mod Nested
pub mod Fill
pub mod Starts
pub mod Ends
pub mod Items
pub mod Entries
pub mod Tree
pub mod Root
pub mod Document
