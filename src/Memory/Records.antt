-- ===== src/Memory/Records.antt =====
-- memory/schema.py: what is stored, asked for and changed. Times are milliseconds.
use lottie_orchestrator.Prelude.{ℕ, String, Option, List}
use lottie_orchestrator.Prelude.Texts.{Text}

pub data MemoryTier : Type 0 where
  working episodic semantic procedural : MemoryTier

pub data MemoryOrigin : Type 0 where
  reflection distill manual : MemoryOrigin

pub data MemoryStatus : Type 0 where
  active deprecated : MemoryStatus

pub record MemoryRecord : Type 0 where
  pub content : Text
  pub tier : MemoryTier
  pub namespace : Text
  pub tags : List Text
  pub metadata : List (String × String)
  pub memory_id : Option Text
  pub origin : MemoryOrigin
  pub source_agent : Option String
  pub run_id : Option String
  pub status : MemoryStatus
  pub created_at : Option ℕ
  pub updated_at : Option ℕ

pub record MemoryQuery : Type 0 where
  pub text : Text
  pub namespace : Text
  pub tier : Option MemoryTier
  pub tags : List Text
  pub limit : ℕ

pub record MemoryPatch : Type 0 where
  pub content : Option Text
  pub tags : Option (List Text)
  pub status : Option MemoryStatus
  pub metadata : Option (List (String × String))
