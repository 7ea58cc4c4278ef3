-- ===== src/Memory/Learned.antt =====
-- memory/agent.py: what the gateway lets into the store.
use lottie_orchestrator.Prelude.{ℕ, ◌≤◌, ◌≡◌, Option, none, some, List, All, length}
use lottie_orchestrator.Prelude.Texts.{Text}
use lottie_orchestrator.Exec.{Exec}
use lottie_orchestrator.Security.Screens.{Tools, memory_gate, check}
use lottie_orchestrator.Memory.Records.{MemoryRecord, MemoryPatch}
use lottie_orchestrator.Memory.Client.{Client, patched}

module _ (P : MemoryRecord → Type 0) (p : MemoryPatch)
    (kept : (r : MemoryRecord) → P r → P (patched p r)) where
  -- what changing one record keeps of all of them
  Changed : List MemoryRecord → Option (MemoryRecord × List MemoryRecord) → Type 0
  Changed rs none = Unit
  Changed rs (some (found, rs')) = All P rs' × (length rs' ≡ length rs)

-- Every record has a property, and there are at least a number of them.
abbrev pub Holds : (MemoryRecord → Type 0) → ℕ → Client → Type 0
Holds P n c = All P c.records × (n ≤ length c.records)

module _ (tools : Tools) (sha256 : Text → Text) where
  -- the content of a record has passed the gate of the memory
  abbrev pub IsLearned : MemoryRecord → Type 0
  IsLearned r = check tools memory_gate r.content ≡ none
