-- ===== src/Security.antt =====
-- src/lottie/security: the screens for what enters and leaves a run, and for what it may store.
pub mod Schema
pub mod Markers
pub mod Injection
pub mod Secrets
pub mod Screens
pub mod Clean
pub mod Paths
pub mod Writes
pub mod Vetted
pub mod WriteGate
mod Tests
mod Spans
pub mod Redaction
