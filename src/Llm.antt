-- ===== src/Llm.antt =====
-- src/lottie/llm: the provider chain with its fallback.
pub mod Routing
pub mod Fallback
mod Tests
