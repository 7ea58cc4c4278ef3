-- ===== src/Runtime/Dispatch.antt =====
-- runtime/events.py, `EventBus.emit`: an observer that raises cannot starve the others.
use lottie_orchestrator.Prelude.{
  ℕ, ◌+◌, String, ◌≡◌, refl, some, none, Option, List, [], ◌∷◌, ◌++◌, arith, length, length-append,
}
use lottie_orchestrator.Exec.{Exc}
use lottie_orchestrator.Runtime.Events.{
  RunEvent, World, Subscriber, EventBus, note_failure, dispatch, emit, Warning, subscriber_failed,
}

module _ {U : Type 0} where
  -- Two worlds that differ in their warnings only, the first with `k` more of them.
  record Differ (k : ℕ) (w w' : World U) : Type 0 where
    same : w.user ≡ w'.user
    more : length w.warnings ≡ length w'.warnings + k

  note_failure-Differ :
      (name : String) (event : RunEvent) (r : Option Exc) (w w' : World U) (k : ℕ)
      → Differ k w w'
      → Differ k (note_failure name event r w) (note_failure name event r w')
  unfolding note_failure
  note_failure-Differ name event none w w' k d = d
  note_failure-Differ name event (some exc) w w' k d = record {
    same = d.same;
    more =
        let x = subscriber_failed name event exc in
        omega
          (arith, length-append w.warnings (x ∷ []), length-append w'.warnings (x ∷ []), d.more);
  }

  dispatch-Differ :
      (event : RunEvent) (sub : Subscriber U) (u u' : U) (l l' : List Warning) (k : ℕ)
      → u ≡ u'
      → length l ≡ length l' + k
      → Differ k
          (dispatch event sub (record { user = u; warnings = l }))
          (dispatch event sub (record { user = u'; warnings = l' }))
  unfolding dispatch
  dispatch-Differ event sub u u' l l' k e h =
      let (r, v) = sub.on_event event u' in
      rw e (
        note_failure-Differ sub.name event r (record { user = v; warnings = l })
          (record { user = v; warnings = l' }) k (record { same = refl; more = h }))

  emit-Differ :
      (subs : EventBus U) (event : RunEvent) (w w' : World U) (k : ℕ)
      → Differ k w w'
      → Differ k (emit subs event w) (emit subs event w')
  unfolding emit
  emit-Differ [] event w w' k d = d
  emit-Differ (sub ∷ subs) event w w' k d =
      emit-Differ subs event (dispatch event sub w) (dispatch event sub w') k
        (dispatch-Differ event sub w.user w'.user w.warnings w'.warnings k d.same d.more)

  -- An observer that raises on an event, and has changed nothing by then, leaves every other
  -- observer with what it would have seen had the broken one not been subscribed; the run learns of
  -- it by exactly one more warning.
  pub emit_isolates :
      (before : EventBus U) (broken : Subscriber U) (after : EventBus U) (event : RunEvent)
      (exc : Exc) (w : World U)
      → ((u : U) → broken.on_event event u ≡ (some exc, u))
      → ((emit (before ++ broken ∷ after) event w).user ≡ (emit (before ++ after) event w).user)
        × (length (emit (before ++ broken ∷ after) event w).warnings
            ≡ length (emit (before ++ after) event w).warnings + 1)
  unfolding emit
  emit_isolates [] broken after event exc w h =
      let d = emit-Differ after event (dispatch event broken w) w 1 (step w) in (d.same, d.more)
    where
      step : (v : World U) → Differ 1 (dispatch event broken v) v
      step v =
          rw (h v.user, dispatch)
            (record {
              same = refl;
              more =
                  omega (
                    arith,
                    length-append v.warnings (subscriber_failed broken.name event exc ∷ []),
                  );
            })
  emit_isolates (sub ∷ before) broken after event exc w h =
      emit_isolates before broken after event exc (dispatch event sub w) h
