-- ===== src/Serve.antt =====
-- src/lottie/serve: the parts of the transports that decide something themselves.
pub mod Auth
pub mod Gate
pub mod Cuts
pub mod Lines
pub mod Pages
pub mod Paging
pub mod Limiter
pub mod Buckets
mod Tests
