-- ===== src/Memory/Modules.antt =====
-- memory/middleware.py: recall before a run, and its trajectory and lessons after it. None of the
-- three lets a failure of the memory reach the run.
use lottie_orchestrator.Prelude.{
  ℕ, ◌+◌, String, Option, none, some, Bool, true, false, List, [], ◌∷◌, leb, if◌then◌else◌,
}
use lottie_orchestrator.Prelude.Texts.{Text, codes}
use lottie_orchestrator.Exec.{Exc, Result, ok, err, Exec, try_finally}
use lottie_orchestrator.Runtime.Events.{World, warn, noted, told}
use lottie_orchestrator.Runtime.Pipeline.{Run, Middleware}
use lottie_orchestrator.Context.Compaction.{Message}
use lottie_orchestrator.Memory.Records.{MemoryTier, MemoryOrigin, MemoryRecord, MemoryQuery}
use lottie_orchestrator.Memory.Recall.{render_as_data}
use lottie_orchestrator.Memory.Reflection.{
  DeltaOp, MemoryDelta, RunTrajectory, build_reflection_prompt, parse_reflection, clip,
}

pub record RunUsage : Type 0 where
  pub success : Bool
  pub error : Option Text
  pub input_tokens : ℕ
  pub output_tokens : ℕ
  pub cost_usd : ℕ
  pub latency_ms : ℕ

-- What the modules are given. `U` is all that a run can touch; `recall` is the client's, and the
-- other calls are those of the agent.
pub record MemoryPorts (I O U : Type 0) : Type 0 where
  pub recall : MemoryQuery → Exec Exc U (List MemoryRecord)
  pub set_prefix : Text → U → U
  pub apply_deltas : List MemoryDelta → Text → MemoryOrigin → Exec Exc U (Unit {0})
  pub call : List Message → Exec Exc U Text
  pub usage : U → Option RunUsage
  pub dump_input : I → Text
  pub dump_output : O → Text
  pub dump_trajectory : RunTrajectory → Text
  pub str_cost : ℕ → Text
  pub recall_namespace : Text
  pub trajectory_namespace : Text
  pub reflect_namespace : Text

abbrev pub on_user : {U : Type 0} → (U → U) → World U → World U
on_user f w = record w { user = f w.user }

-- a warning for what was raised, if anything
abbrev pub or_warn : {U A : Type 0} → String → Result Exc A × U → World U → World U
or_warn what (ok a, u) w = record w { user = u }
or_warn what (err exc, u) w = warn (noted what exc) (record w { user = u })

module _ {I O U : Type 0} (ports : MemoryPorts I O U) where
  -- the `try` of `_load`, after the recall
  abbrev pub recalled : Result Exc (List MemoryRecord) × U → World U → World U
  recalled (ok records, u) w = record w { user = ports.set_prefix (render_as_data records) u }
  recalled (err exc, u) w =
      on_user (ports.set_prefix [])
        (warn (noted "recall failed, proceeding without context" exc) (record w { user = u }))

  abbrev pub load_prefix : Bool → ℕ → World U → World U
  load_prefix false limit w = w
  load_prefix true limit w =
      let query : MemoryQuery = record {
        text = [];
        namespace = ports.recall_namespace;
        tier = some MemoryTier.semantic;
        tags = [];
        limit = limit;
      } in
      recalled (ports.recall query w.user) w

  -- `RecallMiddleware._load`
  unfoldable pub load : Bool → ℕ → World U → World U
  unfolding render_as_data
  load enabled limit w = load_prefix enabled limit (on_user (ports.set_prefix []) w)

  abbrev pub on_world : (World U → World U) → Run I U → Run I U
  on_world f s = record s { world = f s.world }

  -- `RecallMiddleware`
  unfoldable pub recall_middleware : Bool → ℕ → Middleware I O U
  unfolding load
  recall_middleware enabled limit = record {
    name = "recall";
    order = 60;
    call = λ nxt s.
        try_finally nxt (on_world (on_user (ports.set_prefix [])))
          (on_world (load enabled limit) s);
    scope = none;
  }

  abbrev pub dumped : Option O → ℕ → Text
  dumped none max_chars = []
  dumped (some output) max_chars = clip (ports.dump_output output) max_chars

  abbrev outcome_tag : Bool → Text
  outcome_tag true = codes "success"
  outcome_tag false = codes "failure"

  abbrev pub persist_used : ℕ → I → Option O → Option RunUsage → World U → World U
  persist_used max_chars input output none w = w
  persist_used max_chars input output (some m) w =
      let trajectory : RunTrajectory = record {
        task = clip (ports.dump_input input) max_chars;
        outcome = dumped output max_chars;
        success = m.success;
        error = m.error;
        input_tokens = m.input_tokens;
        output_tokens = m.output_tokens;
        cost_usd = m.cost_usd;
        latency_ms = m.latency_ms;
      } in
      let delta : MemoryDelta = record {
        op = DeltaOp.add;
        content = ports.dump_trajectory trajectory;
        tags = codes "trajectory" ∷ outcome_tag m.success ∷ [];
        target_id = none;
      } in
      or_warn "trajectory persistence failed"
        (ports.apply_deltas (delta ∷ []) ports.trajectory_namespace MemoryOrigin.manual w.user) w

  -- `TrajectoryMiddleware._persist`
  unfoldable pub persist : Bool → ℕ → I → Option O → World U → World U
  unfolding clip
  persist enabled max_chars input output w =
      let kept = persist_used max_chars input output (ports.usage w.user) w in
      if enabled then kept else w

  abbrev pub output_of : Result Exc O → Option O
  output_of (ok output) = some output
  output_of (err exc) = none

  abbrev pub persisted : Bool → ℕ → I → Result Exc O × Run I U → Result Exc O × Run I U
  persisted enabled max_chars input (r, s) =
      (r, on_world (persist enabled max_chars input (output_of r)) s)

  -- `TrajectoryMiddleware`
  unfoldable pub trajectory_middleware : Bool → ℕ → Middleware I O U
  unfolding persist
  trajectory_middleware enabled max_chars = record {
    name = "trajectory";
    order = 36;
    call = λ nxt s. persisted enabled max_chars s.ctx.input (nxt s);
    scope = none;
  }

  abbrev pub usage_or_none : Option RunUsage → RunUsage
  usage_or_none none = record {
    success = true;
    error = none;
    input_tokens = 0;
    output_tokens = 0;
    cost_usd = 0;
    latency_ms = 0;
  }
  usage_or_none (some m) = m

  -- whether the run's token cap is used up
  abbrev pub is_exhausted : Option ℕ → ℕ → Bool
  is_exhausted none used = false
  is_exhausted (some cap) used = leb cap used

  abbrev pub apply_lessons : List MemoryDelta → Exec Exc U (Unit {0})
  apply_lessons [] u = (ok tt, u)
  apply_lessons (d ∷ ds) u =
      ports.apply_deltas (d ∷ ds) ports.reflect_namespace MemoryOrigin.reflection u

  abbrev pub after_call : Result Exc Text × U → Result Exc (Unit {0}) × U
  after_call (err exc, u) = (err exc, u)
  after_call (ok text, u) = apply_lessons (parse_reflection text) u

  abbrev pub distil : I → O → RunUsage → World U → World U
  distil input output m w =
      let trajectory : RunTrajectory = record {
        task = ports.dump_input input;
        outcome = ports.dump_output output;
        success = true;
        error = none;
        input_tokens = m.input_tokens;
        output_tokens = m.output_tokens;
        cost_usd = m.cost_usd;
        latency_ms = m.latency_ms;
      } in
      or_warn "reflection failed"
        (after_call (ports.call (build_reflection_prompt ports.str_cost trajectory) w.user)) w

  -- `ReflectMiddleware._reflect`
  unfoldable pub reflect : Bool → Option ℕ → I → O → World U → World U
  unfolding parse_reflection build_reflection_prompt
  reflect enabled cap input output w =
      let m = usage_or_none (ports.usage w.user) in
      let learned = distil input output m w in
      let skipped = warn (told "reflection skipped: run token cap reached") w in
      if enabled
      then (if is_exhausted cap (m.input_tokens + m.output_tokens) then skipped else learned)
      else w

  abbrev pub reflected : Bool → Option ℕ → I → Result Exc O × Run I U → Result Exc O × Run I U
  reflected enabled cap input (err exc, s) = (err exc, s)
  reflected enabled cap input (ok output, s) =
      (ok output, on_world (reflect enabled cap input output) s)

  -- `ReflectMiddleware`
  unfoldable pub reflect_middleware : Bool → Option ℕ → Middleware I O U
  unfolding reflect
  reflect_middleware enabled cap = record {
    name = "reflect";
    order = 70;
    call = λ nxt s. reflected enabled cap s.ctx.input (nxt s);
    scope = none;
  }
