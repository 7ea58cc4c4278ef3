-- ===== src/Runtime/Tests.antt =====
-- A small pipeline on numbers: its observer records every event, and its gate refuses large inputs.
use lottie_orchestrator.Prelude.{
  ℕ, ◌+◌, ◌≡◌, refl, inl, inr, none, some, true, List, [], ◌∷◌, ◌++◌, leb, Bool-cases, length,
  arith, if◌then◌else◌,
}
use lottie_orchestrator.Prelude.Texts.{Text, codes}
use lottie_orchestrator.Exec.{raised, policy_denied, ok, err}
use lottie_orchestrator.Runtime.Context.{null_usage, agent}
use lottie_orchestrator.Runtime.Events.{
  RunEvent, provider_fallback, World, Subscriber, emit, dispatch, note_failure,
}
use lottie_orchestrator.Runtime.Pipeline.{
  Core, Middleware, Pipeline, execute, step, core_frame, checked_hash, is_sha256,
}
use lottie_orchestrator.Runtime.Stream.{StreamCore, execute_stream, drive}
use lottie_orchestrator.Runtime.Dispatch.{emit_isolates}
use lottie_orchestrator.Runtime.Recording.{Records, IsQuiet, refused, used, IsDisciplined}
use lottie_orchestrator.Runtime.Lifecycle.{Executed, execute_lifecycle}
use lottie_orchestrator.Runtime.Streaming.{Streamed, IsQuietCore, execute_stream_events}

abbrev Trace : Type 0
Trace = List RunEvent

abbrev recorder : Subscriber Trace
recorder = record { name = "recorder"; on_event = λ e u. (none, u ++ e ∷ []) }

abbrev digest : Text
digest = codes "00112233445566778899aabbccddeeff00112233445566778899aabbccddeeff"

abbrev guard : Middleware ℕ ℕ Trace
guard = record {
  name = "guard";
  order = 10;
  call = λ nxt s. if leb 5 s.ctx.input then (err (policy_denied "large"), s) else nxt s;
  scope = none;
}

abbrev successor : Core ℕ ℕ Trace
successor i s = (ok (i + 1), s)

abbrev small : Pipeline ℕ ℕ Trace
small = record {
  runnable = "Small";
  kind = agent;
  provider = none;
  core = successor;
  hash_input = λ _. digest;
  hash_output = λ _. digest;
  chain = guard ∷ [];
  bus = recorder ∷ [];
  new_usage = null_usage;
  perf_counter = λ u. length u;
}

abbrev fresh_world : World Trace
fresh_world = record { user = []; warnings = [] }

records_all : Records (λ u. u) small.bus
unfolding emit dispatch note_failure
records_all = record { at = λ e w. refl }

is_quiet : IsQuiet (λ u. u) small.core
is_quiet = record { at = λ i u w. refl }

guard-IsDisciplined : IsDisciplined (λ u. u) guard
guard-IsDisciplined = record {
  at = λ nxt s. elim (Bool-cases (leb 5 s.ctx.input)) [
    | inl e ↦ rw e (refused tt refl refl)
    | inr e ↦ rw e (used s refl refl refl refl (λ x. x))
  ];
}

execute_lifecycle_example :
    Executed small (λ u. u) records_all is_quiet [] (execute small 3 "r1" fresh_world)
execute_lifecycle_example =
    execute_lifecycle small (λ u. u) records_all is_quiet 3 "r1" fresh_world
      (guard-IsDisciplined, tt)

test-execute : length (execute small 3 "r1" fresh_world).1.world.user ≡ 2
unfolding execute step core_frame checked_hash is_sha256 emit
test-execute = refl

test-execute_refused : length (execute small 7 "r1" fresh_world).1.world.user ≡ 1
unfolding execute step checked_hash is_sha256 emit
test-execute_refused = refl

abbrev two_deltas : StreamCore Trace
two_deltas = record {
  pieces = (λ s. (codes "a", s)) ∷ (λ s. (codes "b", s)) ∷ [];
  finish = λ s. (none, s);
}

two_deltas-IsQuietCore : IsQuietCore small (λ u. u) records_all two_deltas
unfolding drive
two_deltas-IsQuietCore none s = refl
two_deltas-IsQuietCore (some k) s = ground arith

execute_stream_events_example :
    Streamed small
      (λ u. u)
      records_all
      two_deltas
      []
      (execute_stream small 3 "r1" two_deltas (some 1) fresh_world)
execute_stream_events_example =
    execute_stream_events small (λ u. u) records_all two_deltas two_deltas-IsQuietCore (tt, tt) 3
      "r1" (some 1) fresh_world

abbrev broken : Subscriber Trace
broken = record { name = "broken"; on_event = λ e u. (some (raised "OSError" "disk full"), u) }

abbrev fallback_event : RunEvent
fallback_event =
    provider_fallback
      (record { run_id = "r1"; runnable = "Small"; kind = agent; root = true; provider = none }) "a"
      "b" (raised "Timeout" "")

emit_isolates_example :
    ((emit (broken ∷ recorder ∷ []) fallback_event fresh_world).user
      ≡ (emit (recorder ∷ []) fallback_event fresh_world).user)
    × (length (emit (broken ∷ recorder ∷ []) fallback_event fresh_world).warnings
        ≡ length (emit (recorder ∷ []) fallback_event fresh_world).warnings + 1)
emit_isolates_example =
    emit_isolates [] broken (recorder ∷ []) fallback_event (raised "OSError" "disk full")
      fresh_world (λ u. refl)
