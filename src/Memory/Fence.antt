-- ===== src/Memory/Fence.antt =====
-- memory/recall.py: the text of a note has no tag of the block that it stands in.
use lottie_orchestrator.Prelude.{Bool, false, ◌||◌, [], ◌∷◌, ◌==◌, any}
use lottie_orchestrator.Prelude.Texts.{Text}
use lottie_orchestrator.Memory.Recall.{is_tag}

-- whether `_TAG_RE` matches anywhere in a text
unfoldable pub has_tag : Text → Bool
unfolding is_tag
has_tag [] = false
has_tag (c ∷ s) = is_tag (c ∷ s) || has_tag s

closes : Text → Bool
closes s = any (λ c. c == b'>') s
