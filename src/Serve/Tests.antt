-- ===== src/Serve/Tests.antt =====
-- A scanner that flags the letter s, and a client that asks twice a minute.
use lottie_orchestrator.Prelude.{
  ℕ, ◌≡◌, refl, none, some, ◌+◌, ◌-◌, ◌*◌, ◌≤◌, Bool, List, [], ◌∷◌, concat, any, arith, ◌==◌,
}
use lottie_orchestrator.Exec.{Exc, raised, Result, ok, err}
use lottie_orchestrator.Serve.Auth.{dispatch}
use lottie_orchestrator.Prelude.Texts.{Text, codes}
use lottie_orchestrator.Serve.Gate.{scan_stream}
use lottie_orchestrator.Serve.Lines.{GatedLines, scan_stream_gates}
use lottie_orchestrator.Prelude.Walks.{strip}
use lottie_orchestrator.Serve.Pages.{digits, page_bounds, max_limit}
use lottie_orchestrator.Serve.Paging.{pages, pages_complete}
use lottie_orchestrator.Serve.Limiter.{one_token, get}
use lottie_orchestrator.Serve.Buckets.{admitted, window_bound}

abbrev has_s : Text → Bool
has_s = any (λ c. c == b's')

abbrev deltas : List Text
deltas = codes "a\nb" ∷ codes "c\ns" ∷ []

scan_stream_gates_example : GatedLines has_s (concat deltas) (scan_stream has_s [] deltas)
scan_stream_gates_example = scan_stream_gates has_s deltas

abbrev client : Text
client = codes "k:1"

abbrev asked : List (ℕ × Text)
asked = (1000, client) ∷ (1000, codes "k:2") ∷ (1500, client) ∷ (2000, client) ∷ []

window_bound_example : admitted 2 client asked [] * one_token ≤ 2 * one_token + (31000 - 1000) * 2
unfolding get
window_bound_example =
    window_bound 2 client 1000 31000 asked [] (omega arith) (omega arith)
      (omega arith, (omega arith, (omega arith, (omega arith, omega arith))))

abbrev items : List ℕ
items = 1 ∷ 2 ∷ 3 ∷ []

two_asked : (page_bounds (some (codes "2")) none).0 ≡ some 2
unfolding page_bounds strip digits
two_asked = refl

pages_complete_example : (1 ≤ 2) × (2 ≤ max_limit) × (pages 2 items 2 0 ≡ items)
pages_complete_example = pages_complete (some (codes "2")) none 2 2 items two_asked (omega arith)

-- The rest of the application counts the requests that get through.
abbrev ask : Text → Text → Result Exc ℕ × ℕ
ask raw header = dispatch 401 (λ n. (ok 200, n + 1)) raw (some header) none 0

right_key : ask (codes "k1, k2 ,") (codes "Bearer  k2 ") ≡ (ok 200, 1)
unfolding dispatch
right_key = refl

wrong_key : ask (codes "k1") (codes "bearer k") ≡ (ok 401, 0)
unfolding dispatch
wrong_key = refl

no_keys : ask (codes " , ") (codes "") ≡ (ok 200, 1)
unfolding dispatch
no_keys = refl

-- A token that is not ASCII is an exception, not a refusal.
accented_token : (ask (codes "k1") (codes "bearer ké")).1 ≡ 0
unfolding dispatch
accented_token = refl

accented_raises :
    (ask (codes "k1") (codes "bearer ké")).0
    ≡ err (raised "TypeError" "comparing strings with non-ASCII characters is not supported")
unfolding dispatch
accented_raises = refl
