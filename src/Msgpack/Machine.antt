-- ===== src/Msgpack/Machine.antt =====
-- The state machine of `ucl_msgpack_consume` in src/ucl_msgpack.c: the stack of containers, the
-- states, and the loop.
mod Containers
mod States
mod Loop
unfoldable pub use Containers.*
unfoldable pub use States.*
unfoldable pub use Loop.*
