-- ===== src/Runtime/Streaming.antt =====
-- runtime/pipeline.py, `execute_stream`: what a stream emits, however it ends.
use lottie_orchestrator.Prelude.{
  ℕ, ◌-◌, String, ◌≡◌, ◌≢◌, refl, sym, ◌∙◌, ap, inl, inr, none, some, Option, Bool, true, false,
  List, [], ◌∷◌, ◌++◌, All, append_nil, append_assoc, eq_refl, str_eq, Bool-cases,
}
use lottie_orchestrator.Prelude.Texts.{Text}
use lottie_orchestrator.Exec.{Exc, Result, ok, err, Exec}
use lottie_orchestrator.Runtime.Context.{Ctx, Usage, lookup, insert, scoped, set_flag, get_flag}
use lottie_orchestrator.Runtime.Events.{
  RunInfo, RunEvent, run_started, run_failed, run_completed, World,
}
use lottie_orchestrator.Runtime.Pipeline.{
  Run, Middleware, Pipeline, checked_hash, publish, run_info, start_run,
}
use lottie_orchestrator.Runtime.Stream.{
  StreamEnd, finished, closed, failed, StreamCore, drive, publish_failed, close_error, on_end,
  publish_unless_failed, begin_stream, stream_body, within_scope, enter_scope, with_scopes,
  execute_stream,
}
use lottie_orchestrator.Runtime.Recording.{Records, seen}

lookup-insert_self :
    {V : Type 0} (k : String) (v : V) (d : List (String × V)) → lookup k (insert k v d) ≡ some v
lookup-insert_self k v [] = rw (eq_refl k)
lookup-insert_self k v ((j, w) ∷ d) = elim (Bool-cases (str_eq j k)) [
  | inl e ↦ rw (e, eq_refl k)
  | inr e ↦ rw (e, e) (lookup-insert_self k v d)
]

get_flag-set_flag :
    {I : Type 0} (m k : String) (b : Bool) (c : Ctx I) → get_flag m k (set_flag m k b c) ≡ b
unfolding get_flag set_flag
get_flag-set_flag m k b c = simp (lookup-insert_self)

-- How a stream ended, and the events that it added: a refusal before its start adds none, an
-- exhausted stream completes, and a stream that raised or was closed fails.
pub data StreamEvents (how : StreamEnd) : List RunEvent → Type 0 where
  unstarted : (exc : Exc) → how ≡ failed exc → StreamEvents how []
  complete :
      (i : RunInfo) (h : Text) (u : Usage) (t : ℕ)
      → how ≡ finished
      → StreamEvents how (run_started i h ∷ run_completed i h none u t ∷ [])
  partial :
      (i : RunInfo) (h : Text) (exc : Exc) (u : Usage) (t : ℕ)
      → how ≢ finished
      → StreamEvents how (run_started i h ∷ run_failed i h exc u t ∷ [])

module _ {I O U : Type 0} (p : Pipeline I O U) (trace : U → List RunEvent)
    (records : Records trace p.bus) (core : StreamCore U) where
  -- The producer emits nothing of its own on this bus.
  abbrev pub IsQuietCore : Type 0
  IsQuietCore =
      (pulls : Option ℕ) (s : Usage × World U)
      → trace (drive core.pieces core.finish pulls s).2.1.user ≡ trace s.1.user

  pub record Streamed (l : List RunEvent) (out : (StreamEnd × List Text) × Run I U) : Type 0 where
    pub events : List RunEvent
    pub emitted : seen trace out.1 ≡ l ++ events
    pub shape : StreamEvents out.0.0 events

  seen-publish : (e : RunEvent) (s : Run I U) → seen trace (publish p e s) ≡ seen trace s ++ e ∷ []
  unfolding publish
  seen-publish e s = records.at e s.world

  second :
      (l : List RunEvent) (a b : RunEvent) (s : Run I U)
      → seen trace s ≡ l ++ a ∷ []
      → seen trace (publish p b s) ≡ l ++ a ∷ b ∷ []
  second l a b s h = seen-publish b s ∙ ap (λ t. t ++ b ∷ []) h ∙ append_assoc l (a ∷ []) (b ∷ [])

  latency_at : ℕ → Run I U → ℕ
  latency_at start s = p.perf_counter s.world.user - start

  seen-publish_failed :
      (l : List RunEvent) (h : Text) (start : ℕ) (exc : Exc) (s : Run I U)
      → seen trace s ≡ l ++ run_started (run_info s.ctx) h ∷ []
      → seen trace (publish_failed p h start exc s)
        ≡ l
          ++ run_started (run_info s.ctx) h
            ∷ run_failed (run_info s.ctx) h exc s.ctx.usage (latency_at start s)
            ∷ []
  unfolding publish_failed set_flag latency_at
  seen-publish_failed l h start exc s e =
      second l (run_started (run_info s.ctx) h)
        (run_failed (run_info s.ctx) h exc s.ctx.usage (latency_at start s))
        (record s { ctx = set_flag "pipeline" "failed" true s.ctx }) e

  -- The `finally` adds nothing after a failure.
  unless-failed :
      (h : Text) (start : ℕ) (exc : Exc) (s : Run I U)
      → publish_unless_failed p h start (publish_failed p h start exc s)
        ≡ publish_failed p h start exc s
  unfolding publish_unless_failed publish_failed
  unless-failed h start exc s = rw (get_flag-set_flag "pipeline" "failed" true s.ctx)

  broken-Streamed :
      (l : List RunEvent) (h : Text) (start : ℕ) (exc : Exc) (how : StreamEnd) (deltas : List Text)
      (s : Run I U)
      → how ≢ finished
      → seen trace s ≡ l ++ run_started (run_info s.ctx) h ∷ []
      → Streamed l ((how, deltas), publish_unless_failed p h start (publish_failed p h start exc s))
  broken-Streamed l h start exc how deltas s ne e = record {
    events =
        run_started (run_info s.ctx) h
        ∷ run_failed (run_info s.ctx) h exc s.ctx.usage (latency_at start s)
        ∷ [];
    emitted = rw (unless-failed h start exc s) (seen-publish_failed l h start exc s e);
    shape = partial _ _ _ _ _ ne;
  }

  on_end-Streamed :
      (l : List RunEvent) (h : Text) (start : ℕ) (how : StreamEnd) (deltas : List Text)
      (s : Run I U)
      → get_flag "pipeline" "failed" s.ctx ≡ false
      → seen trace s ≡ l ++ run_started (run_info s.ctx) h ∷ []
      → Streamed l ((how, deltas), publish_unless_failed p h start (on_end p h start how s))
  unfolding on_end
  on_end-Streamed l h start closed deltas s f e =
      broken-Streamed l h start close_error closed deltas s (λ c. cc) e
  on_end-Streamed l h start (failed exc) deltas s f e =
      broken-Streamed l h start exc (failed exc) deltas s (λ c. cc) e
  on_end-Streamed l h start finished deltas s f e = record {
    events =
        run_started (run_info s.ctx) h
        ∷ run_completed (run_info s.ctx) h none s.ctx.usage (latency_at start s)
        ∷ [];
    emitted = unfold publish_unless_failed latency_at in simp f (second l _ _ s e);
    shape = complete _ _ _ _ refl;
  }

  begin_stream-Streamed :
      IsQuietCore
      → (pulls : Option ℕ) (h : Result Exc Text) (s : Run I U)
      → get_flag "pipeline" "failed" s.ctx ≡ false
      → Streamed (seen trace s) (begin_stream p core pulls h s)
  unfolding begin_stream
  begin_stream-Streamed quiet pulls (err exc) s f = record {
    events = [];
    emitted = sym (append_nil _);
    shape = unstarted exc refl;
  }
  begin_stream-Streamed quiet pulls (ok h) s f =
      let s1 = publish p (run_started (run_info s.ctx) h) s in
      let (how, deltas, (usage, w)) =
        drive core.pieces core.finish pulls (s1.ctx.usage, s1.world) in
      let s2 : Run I U = record s1 { ctx = record s1.ctx { usage = usage }; world = w } in
      on_end-Streamed (seen trace s) h (p.perf_counter s1.world.user) how deltas s2
        (unfold get_flag publish in f) (quiet pulls (s1.ctx.usage, s1.world) ∙ seen-publish _ s)

  -- A scope's entry and exit emit nothing, and its entry leaves the flags of the context alone.
  abbrev pub IsSilentScope : Option (Exec Exc (Run I U) (Run I U → Run I U)) → Type 0
  IsSilentScope none = Unit
  IsSilentScope (some enter) =
      (s : Run I U)
      → (seen trace (enter s).1 ≡ seen trace s)
        × ((enter s).1.ctx.state ≡ s.ctx.state)
        × ((leave : Run I U → Run I U)
            → (enter s).0 ≡ ok leave
            → (t : Run I U) → seen trace (leave t) ≡ seen trace t)

  within_scope-Streamed :
      (l : List RunEvent) (r : Result Exc (Run I U → Run I U)) (s' : Run I U)
      (body : Run I U → (StreamEnd × List Text) × Run I U)
      → seen trace s' ≡ l
      → ((leave : Run I U → Run I U)
          → r ≡ ok leave
          → (t : Run I U) → seen trace (leave t) ≡ seen trace t)
      → Streamed (seen trace s') (body s')
      → Streamed l (within_scope p r body s')
  unfolding within_scope
  within_scope-Streamed l (err exc) s' body same silent b = record {
    events = [];
    emitted = same ∙ sym (append_nil l);
    shape = unstarted exc refl;
  }
  within_scope-Streamed l (ok leave) s' body same silent b = record {
    events = b.events;
    emitted = silent leave refl (body s').1 ∙ b.emitted ∙ ap (λ t. t ++ b.events) same;
    shape = b.shape;
  }

  enter_scope-Streamed :
      (scope : Option (Exec Exc (Run I U) (Run I U → Run I U)))
      (body : Run I U → (StreamEnd × List Text) × Run I U) (s : Run I U)
      → IsSilentScope scope
      → ((t : Run I U) → t.ctx.state ≡ s.ctx.state → Streamed (seen trace t) (body t))
      → Streamed (seen trace s) (enter_scope p scope body s)
  unfolding enter_scope
  enter_scope-Streamed none body s silent b = b s refl
  enter_scope-Streamed (some enter) body s silent b =
      let (same, kept, out) = silent s in
      let (r, s') = enter s in within_scope-Streamed (seen trace s) r s' body same out (b s' kept)

  with_scopes-Streamed :
      (chain : List (Middleware I O U)) (body : Run I U → (StreamEnd × List Text) × Run I U)
      (s : Run I U)
      → All (λ mw. IsSilentScope mw.scope) chain
      → ((t : Run I U) → t.ctx.state ≡ s.ctx.state → Streamed (seen trace t) (body t))
      → Streamed (seen trace s) (with_scopes p chain body s)
  unfolding with_scopes
  with_scopes-Streamed [] body s hs b = b s refl
  with_scopes-Streamed (mw ∷ rest) body s hs b =
      enter_scope-Streamed mw.scope (with_scopes p rest body) s hs.0
        λ t e. with_scopes-Streamed rest body t hs.1 (λ t' e'. b t' (e' ∙ e))

  -- One stream emits nothing if a scope or the hasher refuses it, a start and a completion if it was
  -- exhausted, and a start and a failure if it raised or its consumer closed it: a closed stream is
  -- never recorded as completed. It is assumed that the scopes and the producer emit nothing
  -- themselves, and that no scope writes the context's flags on the way in.
  pub execute_stream_events :
      IsQuietCore
      → All (λ mw. IsSilentScope mw.scope) p.chain
      → (input : I) (run_id : String) (pulls : Option ℕ) (w : World U)
      → Streamed (trace w.user) (execute_stream p input run_id core pulls w)
  unfolding execute_stream
  execute_stream_events quiet hs input run_id pulls w =
      with_scopes-Streamed p.chain (stream_body p core pulls) (start_run p input run_id w) hs λ t e.
        unfold stream_body in
        begin_stream-Streamed quiet pulls (checked_hash (p.hash_input t.ctx.input)) t
          (unfold get_flag scoped start_run in simp e)
