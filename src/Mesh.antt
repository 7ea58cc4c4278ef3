-- ===== src/Mesh.antt =====
-- src/lottie/mesh: the supervisor loop, its router, and recorded plans with their replay.
pub mod Schema
pub mod Router
pub mod Local
pub mod Plan
pub mod Roster
pub mod Replay
mod Tests
