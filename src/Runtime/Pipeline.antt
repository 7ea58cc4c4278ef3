-- ===== src/Runtime/Pipeline.antt =====
-- runtime/pipeline.py, `Pipeline`: the ordered chain and the run through it. `execute_stream` is in
-- `Runtime.Stream`.
use lottie_orchestrator.Prelude.{
  ℕ, ◌-◌, String, Option, some, Bool, true, false, ◌&&◌, ◌||◌, List, [], ◌∷◌, ◌++◌, ◌==◌, leb,
  length, take, last_or, if◌then◌else◌,
}
use lottie_orchestrator.Prelude.Sort.{sort_by, by_key}
use lottie_orchestrator.Prelude.Texts.{Text}
use lottie_orchestrator.Exec.{Exc, unsafe_hasher, Result, ok, err, Exec}
use lottie_orchestrator.Runtime.Context.{RunKind, Usage, Ctx}
use lottie_orchestrator.Runtime.Events.{
  RunInfo, RunEvent, run_started, run_completed, run_failed, run_blocked, World, EventBus, emit,
}

-- The state of one call of `execute`: the context, what the run can touch outside it, and the two
-- variables that the nested functions share (`entered`, `reached_core`).
pub record Run (I U : Type 0) : Type 0 where
  pub ctx : Ctx I
  pub world : World U
  pub entered : List String
  pub reached_core : Bool

-- The real work gets the input, and accrues into the run's one usage accumulator.
abbrev pub Core : Type 0 → Type 0 → Type 0 → Type 0
Core I O U = I → Exec Exc (Usage × World U) O

-- A chain member. A middleware that offers `scope` enters it with an action that returns the exit.
pub record Middleware (I O U : Type 0) : Type 0 where
  pub name : String
  pub order : ℕ
  pub call : Exec Exc (Run I U) O → Exec Exc (Run I U) O
  pub scope : Option (Exec Exc (Run I U) (Run I U → Run I U))

pub record Pipeline (I O U : Type 0) : Type 0 where
  pub runnable : String
  pub kind : RunKind
  pub provider : Option String
  pub core : Core I O U
  pub hash_input : I → Text
  pub hash_output : O → Text
  pub chain : List (Middleware I O U)
  pub bus : EventBus U
  pub new_usage : Usage
  pub perf_counter : U → ℕ

-- `sorted(middleware, key=lambda m: m.order)`, as the constructor stores it
unfoldable pub sort_chain : {I O U : Type 0} → List (Middleware I O U) → List (Middleware I O U)
sort_chain middleware = sort_by (by_key (λ m. m.order)) middleware

is_hex : ℕ → Bool
is_hex c = (leb b'0' c && leb c b'9') || (leb b'a' c && leb c b'f')

all_hex : Text → Bool
unfolding is_hex
all_hex [] = true
all_hex (c ∷ cs) = is_hex c && all_hex cs

-- `_SHA256_RE.match`: `$` also matches before a newline that ends the text.
unfoldable pub is_sha256 : Text → Bool
unfolding all_hex
is_sha256 digest =
    (length digest == 64 && all_hex digest)
    || (length digest == 65 && all_hex (take 64 digest) && last_or 0 digest == 10)

-- `_checked_hash`
unfoldable pub checked_hash : Text → Result Exc Text
checked_hash digest = if is_sha256 digest then ok digest else err (unsafe_hasher (length digest))

unfoldable pub run_info : {I : Type 0} → Ctx I → RunInfo
run_info c = record {
  run_id = c.run_id;
  runnable = c.runnable;
  kind = c.kind;
  root = c.root;
  provider = c.provider;
}

module _ {I O U : Type 0} (p : Pipeline I O U) where
  -- `self._bus.emit(event)` in the middle of a run
  unfoldable pub publish : RunEvent → Run I U → Run I U
  publish event s = record s { world = emit p.bus event s.world }

  -- the end of a successful core call: its output is hashed, outside the `try`
  unfoldable pub finish_core : Text → ℕ → O → Result Exc Text → Run I U → Result Exc O × Run I U
  unfolding publish run_info
  finish_core input_hash start output (err exc) s = (err exc, s)
  finish_core input_hash start output (ok output_hash) s =
      let latency = p.perf_counter s.world.user - start in
      (
        ok output,
        publish (run_completed (run_info s.ctx) input_hash (some output_hash) s.ctx.usage latency)
            s,
      )

  unfoldable pub after_core : Text → ℕ → Result Exc O → Run I U → Result Exc O × Run I U
  unfolding publish run_info finish_core
  after_core input_hash start (err exc) s =
      let latency = p.perf_counter s.world.user - start in
      (err exc, publish (run_failed (run_info s.ctx) input_hash exc s.ctx.usage latency) s)
  after_core input_hash start (ok output) s =
      finish_core input_hash start output (checked_hash (p.hash_output output)) s

  -- the call of the core function, on the run's usage and world
  unfoldable pub call_core : Exec Exc (Run I U) O
  call_core s =
      let (r, (usage, w)) = p.core s.ctx.input (s.ctx.usage, s.world) in
      (r, record s { ctx = record s.ctx { usage = usage }; world = w })

  unfoldable pub begin_core : Result Exc Text → Exec Exc (Run I U) O
  unfolding publish run_info call_core after_core
  begin_core (err exc) s = (err exc, s)
  begin_core (ok input_hash) s =
      let s1 = publish (run_started (run_info s.ctx) input_hash) s in
      let (r, s2) = call_core s1 in after_core input_hash (p.perf_counter s1.world.user) r s2

  -- `_core_frame`: the innermost frame, from which the lifecycle events are emitted
  unfoldable pub core_frame : Exec Exc (Run I U) O
  unfolding begin_core
  core_frame s = begin_core (checked_hash (p.hash_input s.ctx.input)) s

  -- `step(index)`, on the rest of the chain
  unfoldable pub step : List (Middleware I O U) → Exec Exc (Run I U) O
  step [] s = core_frame (record s { reached_core = true })
  step (mw ∷ rest) s = mw.call (step rest) (record s { entered = s.entered ++ mw.name ∷ [] })

  -- `_emit_blocked`, with the checked hash of the input; its own exception takes the place of `exc`
  unfoldable pub emit_blocked : Exc → Result Exc Text → Run I U → Exc × Run I U
  unfolding publish run_info
  emit_blocked exc (err bad) s = (bad, s)
  emit_blocked exc (ok input_hash) s =
      (exc, publish (run_blocked (run_info s.ctx) input_hash (last_or "unknown" s.entered) exc) s)

  unfoldable pub new_ctx : I → String → Ctx I
  new_ctx input run_id = record {
    runnable = p.runnable;
    kind = p.kind;
    input = input;
    run_id = run_id;
    usage = p.new_usage;
    root = false;
    provider = p.provider;
    state = [];
  }

  unfoldable pub start_run : I → String → World U → Run I U
  unfolding new_ctx
  start_run input run_id w = record {
    ctx = new_ctx input run_id;
    world = w;
    entered = [];
    reached_core = false;
  }

  -- the `except` of `execute`: a run that ended before its core frame was refused by a gate
  unfoldable pub settle_execute : Result Exc O → Run I U → Result Exc O × Run I U
  unfolding emit_blocked
  settle_execute (ok output) s = (ok output, s)
  settle_execute (err exc) s =
      if s.reached_core
      then (err exc, s)
      else (let (e, s') = emit_blocked exc (checked_hash (p.hash_input s.ctx.input)) s in
          (err e, s'))

  -- `execute`; the `run_id` is a fresh `uuid4`
  unfoldable pub execute : I → String → World U → Result Exc O × Run I U
  unfolding start_run settle_execute
  execute input run_id w =
      let (r, s) = step p.chain (start_run input run_id w) in settle_execute r s
