-- ===== src/Core/Caps.antt =====
-- core/base_agent.py: a run that goes on is within its caps.
use lottie_orchestrator.Prelude.{
  inr, inl, ltb, Bool-cases, true, subst, ℕ, ◌+◌, ◌≤◌, ◌≡◌, refl, sym, ap, ◌∙◌, Option, none, some,
  List, [], ◌∷◌, length, arith,
}
use lottie_orchestrator.Exec.{Exc, token_cap_exceeded, turn_limit_exceeded, Result, ok, err, Exec}
use lottie_orchestrator.Runtime.Context.{Usage}
use lottie_orchestrator.Context.Compaction.{Message}
use lottie_orchestrator.Context.Compiler.{Source}
use lottie_orchestrator.Core.Assembly.{Assembly, is_budget_stop}
use lottie_orchestrator.Core.Keeping.{is_stop, Kept, compile_prompt-Kept}
use lottie_orchestrator.Core.Limits.{
  call_model, content_of, summarize_span, summary_prompt, warned, with_prompt, Response, RunLimits,
  Spending, add_usage, past, enforce_token_cap, enforce_turns, count_turn, first_exc, account,
  after_call, complete, go_on, complete_all,
}

abbrev pub Within : Option ℕ → ℕ → Type 0
Within none n = Unit
Within (some cap) n = n ≤ cap

past-none : (exc : ℕ → ℕ → Exc) (cap : Option ℕ) (n : ℕ) → past exc cap n ≡ none → Within cap n
past-none exc none n h = tt
past-none exc (some cap) n h = ground arith

past-stop :
    (exc : ℕ → ℕ → Exc)
    → ((n k : ℕ) → is_budget_stop (exc n k) ≡ true)
    → (cap : Option ℕ) (n : ℕ) (e : Exc) → past exc cap n ≡ some e
    → is_budget_stop e ≡ true
past-stop exc b none n e h = cc
past-stop exc b (some cap) n e h = elim (Bool-cases (ltb cap n)) [
  | inl t ↦
      let h' : some (exc n cap) ≡ some e = rw t at h in
      let same : exc n cap ≡ e = cc in ap is_budget_stop (sym same) ∙ b n cap
  | inr t ↦ cc (rw t at h)
]

-- `calls` counts the calls of the model that returned
pub record IsCount {W : Type 0} (warn : Exc → W → W) (llm : List Message → Exec Exc W Response)
    (calls : W → ℕ) : Type 0 where
  pub returned :
      (ms : List Message) (w w' : W) (r : Response) → llm ms w ≡ (ok r, w') → calls w' ≡ calls w + 1
  pub raised :
      (ms : List Message) (w w' : W) (exc : Exc) → llm ms w ≡ (err exc, w') → calls w' ≡ calls w
  pub warned : (exc : Exc) (w : W) → calls (warn exc w) ≡ calls w

module _ (limits : RunLimits) {W : Type 0} (warn : Exc → W → W)
    (llm : List Message → Exec Exc W Response) (calls : W → ℕ) where
  -- Where a run stands after some completions, from the usage and the world that it had.
  pub record Capped (u : Usage) (w : W) (made : ℕ) (t : Spending W) : Type 0 where
    pub usage : Usage
    pub active : t.active ≡ some usage
    pub counted : usage.turns + calls w ≡ u.turns + calls t.world
    pub completed : u.turns + made ≤ usage.turns
    pub turns : Within limits.max_turns usage.turns
    pub tokens : Within limits.max_run_tokens (usage.input_tokens + usage.output_tokens)

  account-Capped :
      (u : Usage) (w : W) (made : ℕ) (r : Response) (s : Spending W) (o : Option Usage) (v : Usage)
      → o ≡ some v
      → v.turns + 1 + calls w ≡ u.turns + calls s.world
      → u.turns + made ≤ v.turns
      → Kept (Capped u w (made + 1)) (account limits r s o)
  unfolding account count_turn add_usage enforce_turns enforce_token_cap
  account-Capped u w made r s none v a c m = cc
  account-Capped u w made r s (some x) v a c m =
      go (enforce_turns limits (count_turn limits (add_usage r x)))
        (enforce_token_cap limits (count_turn limits (add_usage r x))) refl refl
    where
      go :
          (f g : Option Exc)
          → enforce_turns limits (count_turn limits (add_usage r x)) ≡ f
          → enforce_token_cap limits (count_turn limits (add_usage r x)) ≡ g
          → Kept (Capped u w (made + 1)) (
            first_exc limits f g r,
            record s { active = some (count_turn limits (add_usage r x)) },
          )
      go (some e) g p q h = cc (past-stop turn_limit_exceeded (λ n k. refl) limits.max_turns _ e p)
      go none (some e) p q h =
          cc (past-stop token_cap_exceeded (λ n k. refl) limits.max_run_tokens _ e q)
      go none none p q h =
          let same : x ≡ v = cc in
          let count : x.turns ≡ v.turns = ap (λ y. y.turns) same in
          record {
            usage = count_turn limits (add_usage r x);
            active = refl;
            counted = omega (arith, c, count);
            completed = omega (arith, m, count);
            turns = past-none turn_limit_exceeded limits.max_turns _ p;
            tokens = past-none token_cap_exceeded limits.max_run_tokens _ q;
          }

  Capped-less :
      (u : Usage) (w : W) (made : ℕ) (t : Spending W) → Capped u w (made + 1) t → Capped u w made t
  Capped-less u w made t k = record {
    usage = k.usage;
    active = k.active;
    counted = k.counted;
    completed = omega (arith, k.completed);
    turns = k.turns;
    tokens = k.tokens;
  }

  module _ (count : IsCount warn llm calls) (u : Usage) (w : W) where
    -- what holds after a call of the model: a call that raised is no completion
    abbrev Called : ℕ → Result Exc Response × Spending W → Type 0
    Called made x =
        Kept (Capped u w made) x × ((r : Response) → x.0 ≡ ok r → Capped u w (made + 1) x.1)

    after_call-Called :
        (made : ℕ) (ms : List Message) (s : Spending W) (x : Result Exc Response × W)
        → Capped u w made s
        → llm ms s.world ≡ x
        → Called made (after_call limits x.0 (record s { world = x.1 }))
    after_call-Called made ms s (err exc, v) k e =
        let same = count.raised ms s.world v exc e in
        (
          λ _. record {
            usage = k.usage;
            active = k.active;
            counted = omega (arith, k.counted, same);
            completed = k.completed;
            turns = k.turns;
            tokens = k.tokens;
          },
          λ r h. cc,
        )
    after_call-Called made ms s (ok r, v) k e =
        let more = count.returned ms s.world v r e in
        let kept =
          account-Capped u w made r (record s { world = v }) s.active k.usage k.active
            (omega (arith, k.counted, more)) k.completed in
        (λ h. Capped-less u w made _ (kept h), λ t h. kept (ap is_stop h))

    call_model-Called :
        (made : ℕ) (ms : List Message) (s : Spending W)
        → Capped u w made s
        → Called made (call_model limits llm ms s)
    call_model-Called made ms s k = after_call-Called made ms s (llm ms s.world) k refl

    content_of-Kept :
        (made : ℕ) (x : Result Exc Response × Spending W)
        → Kept (Capped u w made) x
        → Kept (Capped u w made) (content_of limits x)
    content_of-Kept made (err exc, s) h = h
    content_of-Kept made (ok r, s) h = h

    summarize_span-Kept :
        (made : ℕ) (ms : List Message) (s : Spending W)
        → Capped u w made s
        → Kept (Capped u w made) (summarize_span limits llm ms s)
    unfolding summarize_span
    summarize_span-Kept made ms s k =
        content_of-Kept made _ (call_model-Called made (summary_prompt ms) s k).0

    warned-Capped :
        (made : ℕ) (exc : Exc) (s : Spending W)
        → Capped u w made s
        → Capped u w made (warned limits warn exc s)
    warned-Capped made exc s k =
        let same = count.warned exc s.world in
        record {
          usage = k.usage;
          active = k.active;
          counted = omega (arith, k.counted, same);
          completed = k.completed;
          turns = k.turns;
          tokens = k.tokens;
        }

    with_prompt-Capped :
        (made : ℕ) (x : Result Exc (List Message) × Spending W) (r : Response) (t : Spending W)
        → Kept (Capped u w made) x
        → with_prompt limits llm x ≡ (ok r, t)
        → Capped u w (made + 1) t
    with_prompt-Capped made (err exc, s) r t k h = cc
    with_prompt-Capped made (ok ms, s) r t k h =
        subst (Capped u w (made + 1)) (ap (λ x. x.1) h)
          ((call_model-Called made ms s (k refl)).1 r (ap (λ x. x.0) h))

    complete-Capped :
        (a : Assembly) (m : List Message × List Source) (made : ℕ) (s t : Spending W) (r : Response)
        → Capped u w made s
        → complete limits warn llm a m s ≡ (ok r, t)
        → Capped u w (made + 1) t
    unfolding complete
    complete-Capped a (messages, extra) made s t r k h =
        with_prompt-Capped made _ r t
          (compile_prompt-Kept (Capped u w made) (warned limits warn) (summarize_span limits llm) a
            messages extra s (warned-Capped made) (summarize_span-Kept made) k)
          h

    go_on-Capped :
        (a : Assembly) (m : List Message × List Source) (ms : List (List Message × List Source))
        (made : ℕ) (s t : Spending W) (x : Result Exc Response × Spending W)
        → complete limits warn llm a m s ≡ x
        → Capped u w made s
        → ((v : Spending W)
            → Capped u w (made + 1) v
            → complete_all limits warn llm a ms v ≡ (ok tt, t)
            → Capped u w (made + 1 + length ms) t)
        → go_on limits (complete_all limits warn llm a ms) x ≡ (ok tt, t)
        → Capped u w (made + length (m ∷ ms)) t
    go_on-Capped a m ms made s t (err exc, v) e k rest h = cc
    go_on-Capped a m ms made s t (ok r, v) e k rest h =
        let same : made + 1 + length ms ≡ made + length (m ∷ ms) = omega arith in
        subst (λ n. Capped u w n t) same (rest v (complete-Capped a m made s v r k e) h)

    complete_all-Capped_from :
        (a : Assembly) (ms : List (List Message × List Source)) (made : ℕ) (s t : Spending W)
        → Capped u w made s
        → complete_all limits warn llm a ms s ≡ (ok tt, t)
        → Capped u w (made + length ms) t
    unfolding complete_all
    complete_all-Capped_from a [] made s t k h =
        let same : made ≡ made + 0 = omega arith in
        subst (λ n. Capped u w n t) same (subst (Capped u w made) (ap (λ x. x.1) h) k)
    complete_all-Capped_from a (m ∷ ms) made s t k h =
        go_on-Capped a m ms made s t (complete limits warn llm a m s) refl k
          (λ v c. complete_all-Capped_from a ms (made + 1) v t c) h

  -- A run that has made some completions, none of which raised, has made no more than its turn limit
  -- allows, has used no more tokens than its cap allows, and has counted each call of the model that
  -- returned exactly once, those for summaries of its context included. It is at the start within its
  -- caps, and `calls` counts the calls of the model that returned.
  pub complete_all-Capped :
      (a : Assembly) (ms : List (List Message × List Source)) (s t : Spending W) (u : Usage)
      → IsCount warn llm calls
      → s.active ≡ some u
      → Within limits.max_turns u.turns
      → Within limits.max_run_tokens (u.input_tokens + u.output_tokens)
      → complete_all limits warn llm a ms s ≡ (ok tt, t)
      → Capped u s.world (length ms) t
  complete_all-Capped a ms s t u count active turns tokens h =
      let same : 0 + length ms ≡ length ms = omega arith in
      subst (λ n. Capped u s.world n t) same
        (complete_all-Capped_from count u s.world a ms 0 s t
          (record {
            usage = u;
            active = active;
            counted = refl;
            completed = omega arith;
            turns = turns;
            tokens = tokens;
          })
          h)
