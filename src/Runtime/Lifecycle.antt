-- ===== src/Runtime/Lifecycle.antt =====
-- runtime/pipeline.py: what a run emits, whatever the chain and the core do.
use lottie_orchestrator.Prelude.{
  ℕ, ◌-◌, ◌≡◌, refl, sym, ◌∙◌, ap, ◌⊎◌, inl, inr, some, true, false, List, [], ◌∷◌, ◌++◌, All,
  String, last_or, append_nil, append_assoc,
}
use lottie_orchestrator.Prelude.Texts.{Text}
use lottie_orchestrator.Exec.{Exc, Result, ok, err, Exec}
use lottie_orchestrator.Runtime.Events.{
  RunEvent, run_started, run_failed, run_completed, run_blocked, World,
}
use lottie_orchestrator.Runtime.Pipeline.{
  Run, Middleware, Pipeline, checked_hash, publish, call_core, finish_core, after_core, begin_core,
  core_frame, step, emit_blocked, settle_execute, execute, start_run, run_info,
}
use lottie_orchestrator.Runtime.Recording.{
  IsErr, CoreEvents, silent, orphaned, failed, completed, CoreEvents-weaken, Lifecycle, ran,
  blocked, Records, IsQuiet, seen, Uses, refused, used, IsDisciplined,
}

module _ {I O U : Type 0} (p : Pipeline I O U) (trace : U → List RunEvent)
    (records : Records trace p.bus) (quiet : IsQuiet trace p.core) where
  seen-publish : (e : RunEvent) (s : Run I U) → seen trace (publish p e s) ≡ seen trace s ++ e ∷ []
  unfolding publish
  seen-publish e s = records.at e s.world

  -- After the core has been reached, from a run that had recorded `l`.
  record Ran (l : List RunEvent) (out : Result Exc O × Run I U) : Type 0 where
    events : List RunEvent
    emitted : seen trace out.1 ≡ l ++ events
    reached : out.1.reached_core ≡ true
    shape : CoreEvents out.0 events

  second :
      (l : List RunEvent) (a b : RunEvent) (s : Run I U)
      → seen trace s ≡ l ++ a ∷ []
      → seen trace (publish p b s) ≡ l ++ a ∷ b ∷ []
  second l a b s h = seen-publish b s ∙ ap (λ t. t ++ b ∷ []) h ∙ append_assoc l (a ∷ []) (b ∷ [])

  finish_core-Ran :
      (l : List RunEvent) (h : Text) (start : ℕ) (output : O) (r : Result Exc Text) (s : Run I U)
      → seen trace s ≡ l ++ run_started (run_info s.ctx) h ∷ []
      → s.reached_core ≡ true
      → Ran l (finish_core p h start output r s)
  unfolding finish_core
  finish_core-Ran l h start output (err exc) s e c = record {
    events = run_started (run_info s.ctx) h ∷ [];
    emitted = e;
    reached = c;
    shape = orphaned _ _ tt;
  }
  finish_core-Ran l h start output (ok h') s e c = record {
    events =
        run_started (run_info s.ctx) h
        ∷ run_completed (run_info s.ctx) h (some h') s.ctx.usage
            (p.perf_counter s.world.user - start)
        ∷ [];
    emitted = second l _ _ s e;
    reached = c;
    shape = completed _ _ _ _ _;
  }

  after_core-Ran :
      (l : List RunEvent) (h : Text) (start : ℕ) (r : Result Exc O) (s : Run I U)
      → seen trace s ≡ l ++ run_started (run_info s.ctx) h ∷ []
      → s.reached_core ≡ true
      → Ran l (after_core p h start r s)
  unfolding after_core
  after_core-Ran l h start (ok output) s e c =
      finish_core-Ran l h start output (checked_hash (p.hash_output output)) s e c
  after_core-Ran l h start (err exc) s e c = record {
    events =
        run_started (run_info s.ctx) h
        ∷ run_failed (run_info s.ctx) h exc s.ctx.usage (p.perf_counter s.world.user - start)
        ∷ [];
    emitted = second l _ _ s e;
    reached = c;
    shape = failed _ _ _ _ _ tt;
  }

  begin_core-Ran :
      (h : Result Exc Text) (s : Run I U)
      → s.reached_core ≡ true
      → Ran (seen trace s) (begin_core p h s)
  unfolding begin_core
  begin_core-Ran (err exc) s c = record {
    events = [];
    emitted = sym (append_nil _);
    reached = c;
    shape = silent tt;
  }
  begin_core-Ran (ok h) s c =
      let s1 = publish p (run_started (run_info s.ctx) h) s in
      let (r, s2) = call_core p s1 in
      after_core-Ran (seen trace s) h (p.perf_counter s1.world.user) r s2
        (quiet.at s.ctx.input s.ctx.usage s1.world ∙ seen-publish _ s) c

  -- What `step` may have done: the core was reached, or some member refused before that.
  abbrev Ends : Run I U → Result Exc O × Run I U → Type 0
  Ends s out =
      Ran (seen trace s) out
      ⊎ ((seen trace out.1 ≡ seen trace s) × (out.1.reached_core ≡ s.reached_core) × IsErr out.0)

  Uses-Ends :
      (nxt : Exec Exc (Run I U) O) (s : Run I U) (out : Result Exc O × Run I U)
      → ((s' : Run I U) → Ends s' (nxt s'))
      → Uses trace nxt s out
      → Ends s out
  Uses-Ends nxt s out ends (refused e l c) = inr (l, c, e)
  Uses-Ends nxt s out ends (used s' l c l' c' f) = go (ends s')
    where
      go : Ends s' (nxt s') → Ends s out
      go (inl r) = inl (record {
        events = r.events;
        emitted = l' ∙ r.emitted ∙ ap (λ t. t ++ r.events) l;
        reached = c' ∙ r.reached;
        shape = CoreEvents-weaken (nxt s').0 out.0 f r.shape;
      })
      go (inr (same, c2, e)) = inr (l' ∙ same ∙ l, c' ∙ c2 ∙ c, f e)

  step-Ends :
      (chain : List (Middleware I O U)) (s : Run I U)
      → All (IsDisciplined trace) chain
      → Ends s (step p chain s)
  unfolding step core_frame
  step-Ends [] s hs = inl (
      begin_core-Ran (checked_hash (p.hash_input s.ctx.input)) (record s { reached_core = true })
        refl)
  step-Ends (mw ∷ rest) s hs =
      let s' : Run I U = record s { entered = s.entered ++ mw.name ∷ [] } in
      Uses-Ends (step p rest) s' (mw.call (step p rest) s') (λ t. step-Ends rest t hs.1)
        (hs.0.at (step p rest) s')

  -- What `execute` adds to a trace `l` by the time that it returns or raises.
  pub record Executed (l : List RunEvent) (out : Result Exc O × Run I U) : Type 0 where
    pub events : List RunEvent
    pub emitted : seen trace out.1 ≡ l ++ events
    pub shape : Lifecycle out.0 events

  emit_blocked-Executed :
      (exc : Exc) (h : Result Exc Text) (s : Run I U)
      → let (e, s') = emit_blocked p exc h s in Executed (seen trace s) (err e, s')
  unfolding emit_blocked
  emit_blocked-Executed exc (err bad) s = record {
    events = [];
    emitted = sym (append_nil _);
    shape = ran (silent tt);
  }
  emit_blocked-Executed exc (ok h) s = record {
    events = run_blocked (run_info s.ctx) h (last_or "unknown" s.entered) exc ∷ [];
    emitted = seen-publish _ s;
    shape = blocked _ _ _ exc refl;
  }

  settle_execute-Executed :
      (s : Run I U) (r : Result Exc O) (s' : Run I U)
      → s.reached_core ≡ false
      → Ends s (r, s')
      → Executed (seen trace s) (settle_execute p r s')
  unfolding settle_execute
  settle_execute-Executed s (ok o) s' c (inl r) = record {
    events = r.events;
    emitted = r.emitted;
    shape = ran r.shape;
  }
  settle_execute-Executed s (ok o) s' c (inr e) = absurd e.2
  settle_execute-Executed s (err exc) s' c (inl r) =
      simp r.reached (record { events = r.events; emitted = r.emitted; shape = ran r.shape })
  settle_execute-Executed s (err exc) s' c (inr e) =
      let out = emit_blocked-Executed exc (checked_hash (p.hash_input s'.ctx.input)) s' in
      simp (e.1 ∙ c) (record {
        events = out.events;
        emitted = out.emitted ∙ ap (λ t. t ++ out.events) e.0;
        shape = out.shape;
      })

  -- Whatever the chain and the work do, one call of `execute` emits one of: nothing, and it raises;
  -- a refusal alone, which is the exception that it raises; a start alone, and it raises; a start
  -- and a failure, and it raises; a start and a completion. So a result is only ever returned after
  -- a completed run. It is assumed that each middleware calls the rest of the chain at most once,
  -- raises if it does not call it, and turns no error into a result, and that middleware and work
  -- emit nothing themselves.
  pub execute_lifecycle :
      (input : I) (run_id : String) (w : World U)
      → All (IsDisciplined trace) p.chain
      → Executed (trace w.user) (execute p input run_id w)
  unfolding execute
  execute_lifecycle input run_id w hs =
      let s = start_run p input run_id w in
      let (r, s') = step p p.chain s in settle_execute-Executed s r s' refl (step-Ends p.chain s hs)
