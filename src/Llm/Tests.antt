-- ===== src/Llm/Tests.antt =====
-- Chains of two providers: one that times out or refuses, and one that answers.
use lottie_orchestrator.Prelude.{ℕ, String, ◌≡◌, refl, Option, none, List, [], ◌∷◌}
use lottie_orchestrator.Prelude.Texts.{Text, codes}
use lottie_orchestrator.Exec.{Exc, raised, Result, ok, err}
use lottie_orchestrator.Llm.Routing.{
  Provider, Routed, complete, stream_complete, attempt, is_transient,
}
use lottie_orchestrator.Llm.Fallback.{
  Refuses, AnsweredBy, Unspliced, complete_never_launders, complete_attributed,
  stream_complete-Unspliced,
}

-- a provider whose calls and streams all end with one result
abbrev fixed : String → Result Exc ℕ → List Text → Provider ℕ ℕ ℕ ℕ
fixed model r deltas = record {
  model = model;
  complete = λ m w. (r, w);
  stream_complete = λ m w. (deltas, r, w);
}

abbrev no_callback : Option (String → String → Exc → ℕ → Option Exc × ℕ)
no_callback = none

abbrev slow : Provider ℕ ℕ ℕ ℕ
slow = fixed "slow" (err (raised "Timeout" "")) []

abbrev refusing : Provider ℕ ℕ ℕ ℕ
refusing = fixed "refusing" (err (raised "AuthenticationError" "")) []

abbrev answering : Provider ℕ ℕ ℕ ℕ
answering = fixed "answering" (ok 7) (codes "hi" ∷ [])

abbrev at_start : Routed ℕ
at_start = record { active = "slow"; world = 0 }

refusing-Refuses : Refuses no_callback refusing 1
unfolding is_transient
refusing-Refuses w = (raised "AuthenticationError" "", refl, refl)

complete_never_launders_example :
    complete no_callback (slow ∷ refusing ∷ answering ∷ []) 1 at_start
    ≡ complete no_callback (slow ∷ refusing ∷ []) 1 at_start
complete_never_launders_example =
    complete_never_launders no_callback (slow ∷ []) refusing (answering ∷ []) 1 at_start
      refusing-Refuses

abbrev answered : Routed ℕ
answered = record { active = "answering"; world = 0 }

falls_back : complete no_callback (slow ∷ answering ∷ []) 1 at_start ≡ (ok 7, answered)
unfolding complete is_transient attempt
falls_back = refl

complete_attributed_example : AnsweredBy no_callback (slow ∷ answering ∷ []) 1 7 "answering"
complete_attributed_example =
    complete_attributed no_callback (slow ∷ answering ∷ []) 1 at_start answered 7 falls_back

stream_complete-Unspliced_example :
    Unspliced no_callback
      (slow ∷ answering ∷ [])
      1
      (stream_complete no_callback (slow ∷ answering ∷ []) 1 at_start)
stream_complete-Unspliced_example =
    stream_complete-Unspliced no_callback slow (answering ∷ []) 1 at_start
