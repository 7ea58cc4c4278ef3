-- ===== src/Context.antt =====
-- src/lottie/context: a long conversation is kept inside its window.
pub mod Compaction
pub mod Survivors
pub mod Compiler
pub mod Pinned
pub mod Compiled
pub mod Kept
mod Tests
