-- ===== src/Knowledge.antt =====
-- src/lottie/knowledge: chunks of documents, and documents with their frontmatter.
pub mod Chunking
pub mod Cover
pub mod Frontmatter
pub mod Ingested
pub mod Manifest
mod Tests
