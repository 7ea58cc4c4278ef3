-- ===== src/Runtime/Stream.antt =====
-- runtime/pipeline.py, `Pipeline.execute_stream`: deltas through the scoped subset of the chain. The
-- generator and its consumer are one run: the core yields its deltas one by one, and the consumer
-- takes all of them, or closes the generator when it has taken a given number.
use lottie_orchestrator.Prelude.{
  ℕ, ◌-◌, String, Option, none, some, Bool, true, false, List, [], ◌∷◌, leb, if◌then◌else◌,
}
use lottie_orchestrator.Prelude.Texts.{Text}
use lottie_orchestrator.Exec.{Exc, raised, Result, ok, err, Exec}
use lottie_orchestrator.Runtime.Context.{Usage, set_flag, get_flag}
use lottie_orchestrator.Runtime.Events.{run_started, run_completed, run_failed, World}
use lottie_orchestrator.Runtime.Pipeline.{
  Run, Middleware, Pipeline, checked_hash, run_info, publish, start_run,
}

-- How a stream ended: exhausted, by an exception, or by `GeneratorExit`.
pub data StreamEnd : Type 0 where
  finished closed : StreamEnd
  failed : Exc → StreamEnd

-- `core(ctx)`: what each `next` does and yields, and how the producer ends after the last delta.
pub record StreamCore (U : Type 0) : Type 0 where
  pub pieces : List (Usage × World U → Text × (Usage × World U))
  pub finish : Usage × World U → Option Exc × (Usage × World U)

-- the consumer's patience: `none` drains the stream, `some k` closes it at the k-th delta
abbrev pub stops_at : Option ℕ → Bool
stops_at none = false
stops_at (some k) = leb k 1

abbrev pub one_less : Option ℕ → Option ℕ
one_less none = none
one_less (some k) = some (k - 1)

-- `isinstance(m, ScopedMiddleware)`
unfoldable pub is_scoped : {I O U : Type 0} → Middleware I O U → Bool
is_scoped m = elim m.scope [ none ↦ false | some _ ↦ true ]

-- `scoped_names`
unfoldable pub scoped_names : {I O U : Type 0} → List (Middleware I O U) → List String
unfolding is_scoped
scoped_names [] = []
scoped_names (m ∷ ms) = let rest = scoped_names ms in if is_scoped m then m.name ∷ rest else rest

module _ {U : Type 0} where
  -- `yield from core(ctx)` until the stream ends: how, what was delivered, and the state then
  unfoldable pub drive :
      List (Usage × World U → Text × (Usage × World U))
      → (Usage × World U → Option Exc × (Usage × World U))
      → Option ℕ
      → Usage × World U
      → StreamEnd × List Text × (Usage × World U)
  drive [] finish pulls s =
      let (e, s') = finish s in
      elim e [ none ↦ (finished, [], s') | some exc ↦ (failed exc, [], s') ]
  drive (piece ∷ pieces) finish pulls s =
      let (delta, s') = piece s in
      let rest = drive pieces finish (one_less pulls) s' in
      if stops_at pulls then (closed, delta ∷ [], s') else (rest.0, delta ∷ rest.1, rest.2)

abbrev pub close_error : Exc
close_error = raised "GeneratorExit" "stream closed before completion"

module _ {I O U : Type 0} (p : Pipeline I O U) where
  -- the two `except` branches
  unfoldable pub publish_failed : Text → ℕ → Exc → Run I U → Run I U
  unfolding publish run_info
  publish_failed input_hash start exc s =
      let s' : Run I U = record s { ctx = set_flag "pipeline" "failed" true s.ctx } in
      publish p
        (run_failed (run_info s'.ctx) input_hash exc s'.ctx.usage
          (p.perf_counter s'.world.user - start))
        s'

  unfoldable pub on_end : Text → ℕ → StreamEnd → Run I U → Run I U
  unfolding publish_failed
  on_end input_hash start finished s = s
  on_end input_hash start closed s = publish_failed input_hash start close_error s
  on_end input_hash start (failed exc) s = publish_failed input_hash start exc s

  -- the `finally`: completed only where no branch above marked the run as failed
  unfoldable pub publish_unless_failed : Text → ℕ → Run I U → Run I U
  unfolding publish run_info
  publish_unless_failed input_hash start s =
      if get_flag "pipeline" "failed" s.ctx
      then s
      else publish p
          (run_completed (run_info s.ctx) input_hash none s.ctx.usage
            (p.perf_counter s.world.user - start))
          s

  unfoldable pub begin_stream :
      StreamCore U → Option ℕ → Result Exc Text → Run I U → (StreamEnd × List Text) × Run I U
  unfolding publish run_info on_end publish_unless_failed drive
  begin_stream core pulls (err exc) s = ((failed exc, []), s)
  begin_stream core pulls (ok input_hash) s =
      let s1 = publish p (run_started (run_info s.ctx) input_hash) s in
      let start = p.perf_counter s1.world.user in
      let (how, deltas, (usage, w)) =
        drive core.pieces core.finish pulls (s1.ctx.usage, s1.world) in
      let s2 : Run I U = record s1 { ctx = record s1.ctx { usage = usage }; world = w } in
      ((how, deltas), publish_unless_failed input_hash start (on_end input_hash start how s2))

  -- the body of the `with ExitStack()`, once every scope is entered
  unfoldable pub stream_body : StreamCore U → Option ℕ → Run I U → (StreamEnd × List Text) × Run I U
  unfolding begin_stream
  stream_body core pulls s = begin_stream core pulls (checked_hash (p.hash_input s.ctx.input)) s

  -- one `enter_context`: what is left of the run if the scope refuses, or the rest of it
  unfoldable pub within_scope :
      Result Exc (Run I U → Run I U)
      → (Run I U → (StreamEnd × List Text) × Run I U)
      → Run I U
      → (StreamEnd × List Text) × Run I U
  within_scope (err exc) body s = ((failed exc, []), s)
  within_scope (ok leave) body s = let (out, s') = body s in (out, leave s')

  unfoldable pub enter_scope :
      Option (Exec Exc (Run I U) (Run I U → Run I U))
      → (Run I U → (StreamEnd × List Text) × Run I U)
      → Run I U
      → (StreamEnd × List Text) × Run I U
  unfolding within_scope
  enter_scope none body s = body s
  enter_scope (some enter) body s = let (r, s') = enter s in within_scope r body s'

  -- `ExitStack`: scopes are entered in chain order and left in reverse, whatever happens within
  unfoldable pub with_scopes :
      List (Middleware I O U)
      → (Run I U → (StreamEnd × List Text) × Run I U)
      → Run I U
      → (StreamEnd × List Text) × Run I U
  with_scopes [] body s = body s
  with_scopes (mw ∷ rest) body s = enter_scope mw.scope (with_scopes rest body) s

  -- `execute_stream`, from its first `next` on
  unfoldable pub execute_stream :
      I → String → StreamCore U → Option ℕ → World U → (StreamEnd × List Text) × Run I U
  unfolding start_run with_scopes stream_body
  execute_stream input run_id core pulls w =
      with_scopes p.chain (stream_body core pulls) (start_run p input run_id w)
