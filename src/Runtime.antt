-- ===== src/Runtime.antt =====
-- src/lottie/runtime: the execution kernel. `Context` is the per-run carrier, `Events` the bus and
-- `Pipeline` the middleware chain; the other modules prove what the kernel promises.
pub mod Context
pub mod Events
pub mod Pipeline
pub mod Stream
pub mod Dispatch
pub mod Recording
pub mod Lifecycle
pub mod Streaming
mod Tests
