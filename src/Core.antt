-- ===== src/Core.antt =====
-- src/lottie/core: what an agent mounts on its chain, and the budget of one run.
pub mod Screens
pub mod Chain
pub mod Positions
pub mod Enforcement
pub mod Governed
pub mod Secured
pub mod Progress
pub mod Resumed
pub mod Assembly
pub mod Keeping
pub mod Prompt
pub mod Observers
pub mod Plugins
pub mod Limits
pub mod Caps
mod Tests
