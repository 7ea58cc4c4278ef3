-- ===== src/Mesh/Replay.antt =====
-- mesh/plan.py with mesh/local.py: the plan of a run, replayed, gives the run again without asking
-- the route function.
use lottie_orchestrator.Prelude.{
  ℕ, zero, suc, ◌+◌, ◌≡◌, refl, sym, ap, subst, ◌∙◌, Bool, true, false, List, [], ◌∷◌, ◌++◌,
  append_assoc,
}
use lottie_orchestrator.Prelude.Texts.{Text}
use lottie_orchestrator.Prelude.Walks.{text_eq}
use lottie_orchestrator.Exec.{Result, ok, err, Exec}
use lottie_orchestrator.Mesh.Schema.{
  MeshError, finish_name, MeshState, RouteDecision, MeshRunResult,
}
use lottie_orchestrator.Mesh.Local.{RouteFn, Nodes, call_node, after_test, after_route, loop, run}
use lottie_orchestrator.Mesh.Plan.{
  recorded, record_route, recording, number_steps, replay_step, replay, plan_of,
}
use lottie_orchestrator.Mesh.Router.{route}
use lottie_orchestrator.Mesh.Roster.{IsRouted, to_one, to_many, route_fails_closed}

module _ (nodes : Nodes) (max_steps : ℕ) where
  -- The decisions taken from here on, replayed, lead to the same result and are used up.
  pub record Repeats (n : ℕ) (state : MeshState) (before after : List (List Text))
      (result : MeshRunResult) : Type 0 where
    pub new : List (List Text)
    pub grown : after ≡ before ++ new
    pub replayed :
        (i : ℕ) → loop nodes replay max_steps n state (number_steps i new) ≡ (ok result, [])

  -- what a recorded run knows of its later rounds
  abbrev IsRepeating : {S : Type 0} → RouteFn S → ℕ → Type 0
  IsRepeating {S} route n =
      (state : MeshState) (s s' : S) (before after : List (List Text)) (result : MeshRunResult)
      → loop nodes (record_route route) max_steps n state (s, before) ≡ (ok result, (s', after))
      → Repeats n state before after result

  module _ {S : Type 0} (route : RouteFn S) (n : ℕ) (state : MeshState) (s s' : S)
      (before after : List (List Text)) (result : MeshRunResult) where
    one_more :
        (w : Text) (state' : MeshState)
        → text_eq w finish_name ≡ false
        → call_node nodes w state ≡ ok state'
        → Repeats n state' (before ++ (w ∷ []) ∷ []) after result
        → Repeats (suc n) state before after result
    unfolding loop replay replay_step number_steps
    one_more w state' e c again = record {
      new = (w ∷ []) ∷ again.new;
      grown = again.grown ∙ append_assoc before ((w ∷ []) ∷ []) again.new;
      replayed = λ i. rw (e, c) (again.replayed (i + 1));
    }

    to_one-Repeats :
        (w : Text) (b : Bool) (next : Result MeshError MeshState)
        → text_eq w finish_name ≡ b
        → call_node nodes w state ≡ next
        → IsRepeating route n
        → after_test
            (loop nodes (record_route route) max_steps n)
            state
            next
            b
            (s, before ++ recorded (record { next = w; parallel = [] }))
          ≡ (ok result, (s', after))
        → Repeats (suc n) state before after result
    unfolding loop recorded replay replay_step number_steps
    to_one-Repeats w true next e c ih h = record {
      new = [];
      grown = sym (ap (λ x. x.1.1) (rw e at h)) ∙ refl;
      replayed = λ i. ap (λ x. (x.0, [])) h;
    }
    to_one-Repeats w false (err x) e c ih h = cc
    to_one-Repeats w false (ok state') e c ih h =
        one_more w state' e c (ih state' s s' _ after result (rw e at h))

    routed-Repeats :
        {workers : List Text} (d : RouteDecision)
        → IsRouted workers d
        → IsRepeating route n
        → after_route nodes
            (loop nodes (record_route route) max_steps n)
            state
            (ok d, (s, before ++ recorded d))
          ≡ (ok result, (s', after))
        → Repeats (suc n) state before after result
    unfolding loop recorded replay replay_step number_steps
    routed-Repeats d (to_one w known) ih h = to_one-Repeats w _ _ refl refl ih h
    routed-Repeats d (to_many a b ws known) ih h = record {
      new = (a ∷ b ∷ ws) ∷ [];
      grown = sym (ap (λ x. x.1.1) h);
      replayed = λ i. ap (λ x. (x.0, [])) h;
    }

  recorded-Repeats :
      {S : Type 0} (route : RouteFn S) (workers : List Text)
      → ((state : MeshState) (s s' : S) (d : RouteDecision)
          → route state s ≡ (ok d, s')
          → IsRouted workers d)
      → (n : ℕ) → IsRepeating route n
  unfolding loop record_route
  recorded-Repeats route workers closed zero state s s' before after result h = cc
  recorded-Repeats {S} route workers closed (suc n) state s s' before after result h =
      go (route state s) (λ d t. closed state s t d) (recorded-Repeats route workers closed n) h
    where
      go :
          (x : Result MeshError RouteDecision × S)
          → ((d : RouteDecision) (t : S) → x ≡ (ok d, t) → IsRouted workers d)
          → IsRepeating route n
          → after_route nodes
              (loop nodes (record_route route) max_steps n)
              state
              (recording before x)
            ≡ (ok result, (s', after))
          → Repeats (suc n) state before after result
      go (err e, t) c ih h = cc
      go (ok d, t) c ih h =
          routed-Repeats route n state t s' before after result d (c d t refl) ih h

  -- The plan of a run that a supervisor has led to its end, replayed on the same task, gives the
  -- same result without asking the model, and uses up every step of the plan.
  pub replay_repeats_run :
      {S : Type 0} (ask : MeshState → Exec MeshError S Text) (workers : List Text)
      (sha256 : Text → Text) (state : MeshState) (s s' : S) (decisions : List (List Text))
      (result : MeshRunResult)
      → run nodes (record_route (route ask workers)) max_steps state (s, [])
        ≡ (ok result, (s', decisions))
      → run nodes replay max_steps state (plan_of sha256 state.task decisions).steps
        ≡ (ok result, [])
  unfolding run plan_of
  replay_repeats_run ask workers sha256 state s s' decisions result h =
      let r =
        recorded-Repeats (route ask workers) workers (route_fails_closed ask workers) max_steps
          state s s' [] decisions result h in
      subst
        (λ ds. loop nodes replay max_steps max_steps state (number_steps 0 ds) ≡ (ok result, []))
        (sym r.grown) (r.replayed 0)
