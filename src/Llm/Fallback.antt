-- ===== src/Llm/Fallback.antt =====
-- llm/routing.py: a refusal is never taken to another provider, an answer is attributed to the
-- provider that gave it, and a stream is never spliced.
use mathlib.Core.Path.{fun_ext}
use lottie_orchestrator.Prelude.{
  String, ◌≡◌, refl, ap, sym, ◌∙◌, ◌⊎◌, inl, inr, Option, none, some, false, not, ◌||◌, List, [],
  ◌∷◌, ◌++◌, Bool-cases,
}
use lottie_orchestrator.Prelude.Texts.{Text}
use lottie_orchestrator.Exec.{Exc, Result, ok, err}
use lottie_orchestrator.Llm.Routing.{
  is_transient, Provider, Routed, notify, settle_complete, attempt, complete, settle_stream,
  stream_complete, started,
}

module _ {M R S W : Type 0}
    (on_fallback : Option (String → String → Exc → W → Option Exc × W)) where
  -- The provider answers every call with a failure that no other provider may see.
  abbrev pub Refuses : Provider M R S W → M → Type 0
  Refuses p m = (w : W) → (e : Exc) × ((p.complete m w).0 ≡ err e) × (is_transient e ≡ false)

  settle_refused :
      (p : Provider M R S W)
      (next : Option (Provider M R S W × (Routed W → Result Exc R × Routed W))) (r : Result Exc R)
      (e : Exc) (s : Routed W)
      → r ≡ err e
      → is_transient e ≡ false
      → settle_complete on_fallback p next r s ≡ (err e, s)
  unfolding settle_complete
  settle_refused p none r e s h t = rw h
  settle_refused p (some (q, again)) r e s h t = rw (h, t)

  refused :
      (p : Provider M R S W) (after : List (Provider M R S W)) (m : M) (s : Routed W)
      → Refuses p m
      → complete on_fallback (p ∷ after) m s ≡ complete on_fallback (p ∷ []) m s
  unfolding complete attempt
  refused p [] m s h = refl
  refused p (q ∷ after) m s h =
      let (e, fails, fatal) = h s.world in
      let s' : Routed W = record s { world = (p.complete m s.world).1 } in
      settle_refused p (some (q, complete on_fallback (q ∷ after) m)) (p.complete m s.world).0 e s'
        fails fatal
      ∙ sym (settle_refused p none (p.complete m s.world).0 e s' fails fatal)

  -- A provider's refusal ends the chain: whatever providers stand behind it, and whatever those
  -- before it do, the outcome is as if it were the last one.
  pub complete_never_launders :
      (before : List (Provider M R S W)) (p : Provider M R S W) (after : List (Provider M R S W))
      (m : M) (s : Routed W)
      → Refuses p m
      → complete on_fallback (before ++ p ∷ after) m s ≡ complete on_fallback (before ++ p ∷ []) m s
  unfolding complete
  complete_never_launders [] p after m s h = refused p after m s h
  complete_never_launders (b ∷ []) p after m s h =
      let (r, s') = attempt on_fallback b m s in
      ap (λ again. settle_complete on_fallback b (some (p, again)) r s')
        (fun_ext λ t. refused p after m t h)
  complete_never_launders (b ∷ c ∷ before) p after m s h =
      let (r, s') = attempt on_fallback b m s in
      ap (λ again. settle_complete on_fallback b (some (c, again)) r s')
        (fun_ext λ t. complete_never_launders (c ∷ before) p after m t h)

  abbrev pub In : Provider M R S W → List (Provider M R S W) → Type 0
  In p [] = ⊥
  In p (q ∷ qs) = (q ≡ p) ⊎ In p qs

  -- Some provider of the chain gave this answer in some world, and is named as the active one.
  pub record AnsweredBy (ps : List (Provider M R S W)) (m : M) (response : R) (active : String)
      : Type 0 where
    pub provider : Provider M R S W
    pub within : In provider ps
    pub world : W
    pub answers : (provider.complete m world).0 ≡ ok response
    pub named : active ≡ provider.model

  later :
      (p : Provider M R S W) (ps : List (Provider M R S W)) (m : M) (response : R) (active : String)
      → AnsweredBy ps m response active
      → AnsweredBy (p ∷ ps) m response active
  later p ps m response active a = record {
    provider = a.provider;
    within = inr a.within;
    world = a.world;
    answers = a.answers;
    named = a.named;
  }

  -- what is known of the rest of the chain, where there is one
  abbrev Rest :
      List (Provider M R S W)
      → M
      → R
      → Routed W
      → Option (Provider M R S W × (Routed W → Result Exc R × Routed W))
      → Type 0
  Rest ps m response s' none = Unit
  Rest ps m response s' (some (q, again)) =
      (t : Routed W) → again t ≡ (ok response, s') → AnsweredBy ps m response s'.active

  settled :
      (p : Provider M R S W) (ps : List (Provider M R S W)) (m : M) (w : W)
      (next : Option (Provider M R S W × (Routed W → Result Exc R × Routed W))) (r : Result Exc R)
      (s s' : Routed W) (response : R)
      → (p.complete m w).0 ≡ r
      → Rest ps m response s' next
      → settle_complete on_fallback p next r s ≡ (ok response, s')
      → AnsweredBy (p ∷ ps) m response s'.active
  unfolding settle_complete
  settled p ps m w next (ok r) s s' response e ih h = record {
    provider = p;
    within = inl refl;
    world = w;
    answers = cc;
    named = ap (λ (t : Result Exc R × Routed W). t.1.active) (sym h);
  }
  settled p ps m w none (err exc) s s' response e ih h = cc
  settled p ps m w (some (q, again)) (err exc) s s' response e ih h =
      elim (Bool-cases (is_transient exc)) [
        | inl t ↦ later p ps m response s'.active (ih _ (rw t at h))
        | inr t ↦ cc (rw t at h)
      ]

  -- The answer of the chain is the answer of one of its providers, and the model that the router gives
  -- as its own after the call is the model of that provider.
  pub complete_attributed :
      (ps : List (Provider M R S W)) (m : M) (s s' : Routed W) (response : R)
      → complete on_fallback ps m s ≡ (ok response, s')
      → AnsweredBy ps m response s'.active
  unfolding complete attempt
  complete_attributed [] m s s' response h = cc
  complete_attributed (p ∷ []) m s s' response h =
      settled p [] m s.world none _ _ s' response refl tt h
  complete_attributed (p ∷ q ∷ rest) m s s' response h =
      settled p (q ∷ rest) m s.world (some (q, complete on_fallback (q ∷ rest) m)) _ _ s' response
        refl (λ t. complete_attributed (q ∷ rest) m t s' response) h

  -- What a caller gets of a stream, its deltas with how it ended, is what one provider gave.
  pub record Unspliced (ps : List (Provider M R S W)) (m : M)
      (out : List Text × Result Exc S × Routed W) : Type 0 where
    pub provider : Provider M R S W
    pub within : In provider ps
    pub world : W
    pub deltas : (provider.stream_complete m world).0 ≡ out.0
    pub ends : (provider.stream_complete m world).1 ≡ out.1

  abbrev RestOfStream :
      List (Provider M R S W)
      → M
      → Option (Provider M R S W × (Routed W → List Text × Result Exc S × Routed W))
      → Type 0
  RestOfStream ps m none = Unit
  RestOfStream ps m (some (q, again)) = (t : Routed W) → Unspliced ps m (again t)

  stream_settled :
      (p : Provider M R S W) (ps : List (Provider M R S W)) (m : M) (w : W)
      (next : Option (Provider M R S W × (Routed W → List Text × Result Exc S × Routed W)))
      (deltas : List Text) (r : Result Exc S) (s : Routed W)
      → (p.stream_complete m w).0 ≡ deltas
      → (p.stream_complete m w).1 ≡ r
      → RestOfStream ps m next
      → Unspliced (p ∷ ps) m (settle_stream on_fallback p next deltas r s)
  unfolding settle_stream
  stream_settled p ps m w next deltas (ok result) s d e ih = record {
    provider = p;
    within = inl refl;
    world = w;
    deltas = d;
    ends = e;
  }
  stream_settled p ps m w none deltas (err exc) s d e ih = record {
    provider = p;
    within = inl refl;
    world = w;
    deltas = d;
    ends = e;
  }
  stream_settled p ps m w (some (q, again)) deltas (err exc) s d e ih =
      elim (Bool-cases (started deltas || not (is_transient exc))) [
        | inl stop ↦
            rw stop (record { provider = p; within = inl refl; world = w; deltas = d; ends = e })
        | inr go ↦
            let u = ih (record s { world = notify on_fallback p q exc s.world }) in
            rw go (record {
              provider = u.provider;
              within = inr u.within;
              world = u.world;
              deltas = u.deltas;
              ends = u.ends;
            })
      ]

  -- Fallback never splices: all deltas that a caller receives, and the way in which the stream ends,
  -- come from one provider of the chain.
  pub stream_complete-Unspliced :
      (p : Provider M R S W) (ps : List (Provider M R S W)) (m : M) (s : Routed W)
      → Unspliced (p ∷ ps) m (stream_complete on_fallback (p ∷ ps) m s)
  unfolding stream_complete
  stream_complete-Unspliced p [] m s = stream_settled p [] m s.world none _ _ _ refl refl tt
  stream_complete-Unspliced p (q ∷ rest) m s =
      stream_settled p (q ∷ rest) m s.world (some (q, stream_complete on_fallback (q ∷ rest) m)) _ _
        _ refl refl (λ t. stream_complete-Unspliced q rest m t)
