-- ===== src/Distill.antt =====
-- distill: skills as prompt templates, their drafts and their promotion.
pub mod Template
pub mod Replaced
pub mod Slots
pub mod Store
pub mod Review
pub mod Promoted
mod Tests
