-- ===== src/Memory.antt =====
-- src/lottie/memory: records with a namespace, and the in-memory client.
pub mod Records
pub mod Client
pub mod Reflection
pub mod Recall
pub mod Fence
pub mod Gateway
pub mod Learned
pub mod Modules
pub mod Unnoticed
pub mod Isolation
mod Tests
mod GatewayTests
