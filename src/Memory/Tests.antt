-- ===== src/Memory/Tests.antt =====
-- A note of one namespace, and a note that another one writes.
use lottie_orchestrator.Prelude.{◌≡◌, ◌≢◌, none, [], ◌∷◌, All}
use lottie_orchestrator.Prelude.Texts.{Text, codes}
use lottie_orchestrator.Prelude.Walks.{text_eq_iff}
use lottie_orchestrator.Memory.Records.{
  MemoryTier, MemoryOrigin, MemoryStatus, MemoryRecord, MemoryQuery,
}
use lottie_orchestrator.Memory.Client.{Client, recall}
use lottie_orchestrator.Memory.Isolation.{InNamespace, remember_all, recall_isolated}

abbrev note : Text → Text → MemoryRecord
note namespace content = record {
  content = content;
  tier = MemoryTier.semantic;
  namespace = namespace;
  tags = [];
  metadata = [];
  memory_id = none;
  origin = MemoryOrigin.manual;
  source_agent = none;
  run_id = none;
  status = MemoryStatus.active;
  created_at = none;
  updated_at = none;
}

abbrev client : Client
client = record { records = note (codes "a") (codes "use tests") ∷ []; counter = 1 }

abbrev query : MemoryQuery
query = record { text = codes "TEST"; namespace = codes "a"; tier = none; tags = []; limit = 5 }

differ : codes "b" ≢ codes "a"
differ e = cc ((text_eq_iff (codes "b") (codes "a")).1 e)

recall_isolated_example :
    (recall query (remember_all (note (codes "b") (codes "test less") ∷ []) client)
      ≡ recall query client)
    × All (InNamespace query) (recall query client)
recall_isolated_example =
    recall_isolated query (note (codes "b") (codes "test less") ∷ []) client (differ, tt)
