-- ===== src/Session.antt =====
-- src/lottie/session: a task that goes on in another process.
pub mod Store
pub mod Confinement
pub mod Refinement
pub mod Screened
pub mod Reload
pub mod Module
mod Tests
