-- ===== src/Core/Prompt.antt =====
-- core/base_agent.py with context/compiler.py: what is sent to the model.
use lottie_orchestrator.Prelude.{
  ap, ◌++◌, Bool, ◌≢◌, any, any-append, arith, ◌∙◌, ◌&&◌, subst, ℕ, ◌≡◌, refl, true, false, List,
  [], ◌∷◌, All, All-append, Bool-cases, inl, inr, str_eq,
}
use lottie_orchestrator.Prelude.Sort.{sort_by, by_key, any-sort_by}
use lottie_orchestrator.Prelude.Texts.{Text}
use lottie_orchestrator.Exec.{Exc, token_cap_exceeded, turn_limit_exceeded, Result, ok, err}
use lottie_orchestrator.Context.Compaction.{Message}
use lottie_orchestrator.Context.Compiler.{
  compile_context, is_system, Source, CompileResult, Summarizer,
}
use lottie_orchestrator.Context.Kept.{holds, Compiled-any}
use lottie_orchestrator.Prelude.Walks.{text_eq, text_eq_iff}
use lottie_orchestrator.Context.Pinned.{IsApart}
use lottie_orchestrator.Context.Compiled.{Compiled, compile_context-Compiled}
use lottie_orchestrator.Core.Assembly.{
  agent_source, is_budget_stop, Assembly, recall_sources, context_sources, when, assembled,
  compile_prompt,
}

-- an exception that is no budget stop
abbrev pub IsNoStop : Exc → Type 0
IsNoStop exc =
    ((n cap : ℕ) → exc ≢ token_cap_exceeded n cap) × ((n cap : ℕ) → exc ≢ turn_limit_exceeded n cap)

-- the message of the recalled notes
abbrev pub is_notes : Text → Message → Bool
is_notes prefix m = str_eq m.role "system" && text_eq m.content prefix

-- What is sent, from how the compilation of the sources ended. Where it raised, and no budget stop,
-- the agent's own messages as they are; else what it gave, which is compiled of the sources and has
-- the recalled notes in it, if there are any.
pub data Sent {W : Type 0} (sources : List Source) (prefix : Text) (messages : List Message)
    (keep_recent : ℕ) (ended : Result Exc CompileResult × W) : List Message → Type 0 where
  as_is :
      {exc : Exc} {v : W}
      → ended ≡ (err exc, v)
      → IsNoStop exc
      → Sent sources prefix messages keep_recent ended messages
  compiled :
      {r : CompileResult} {v : W}
      → ended ≡ (ok r, v)
      → Compiled (sort_by (by_key (λ s. s.order)) sources) keep_recent r.messages
      → (prefix ≢ [] → any (is_notes prefix) r.messages ≡ true)
      → Sent sources prefix messages keep_recent ended r.messages

-- A source that may be dropped has a name of its own: neither the agent's, nor that of the recalled
-- notes, nor that of another pinned source.
abbrev pub IsFree : List Source → Source → Type 0
IsFree extra t =
    t.pinned ≡ false
    → All (λ s. s.pinned ≡ true → str_eq t.name s.name ≡ false) extra
      × (str_eq t.name "recall" ≡ false)
      × (str_eq t.name "agent" ≡ false)

module _ (prefix : Text) (messages : List Message) (extra : List Source) where
  dropped-IsApart :
      (t : Source) (u : Text) → IsFree extra t → IsApart (context_sources u messages extra) t
  unfolding context_sources
  dropped-IsApart t [] f p =
      let (own, recall, agent) = f p in
      All-append (λ s. s.pinned ≡ true → str_eq t.name s.name ≡ false) extra _ own
        ((λ q. agent), tt)
  dropped-IsApart t (c ∷ u) f p =
      let (own, recall, agent) = f p in
      All-append (λ s. s.pinned ≡ true → str_eq t.name s.name ≡ false) extra _ own
        ((λ q. recall), ((λ q. agent), tt))

  each-IsApart :
      (ts : List Source)
      → All (IsFree extra) ts
      → All (IsApart (context_sources prefix messages extra)) ts
  each-IsApart [] h = tt
  each-IsApart (t ∷ ts) h = (dropped-IsApart t prefix h.0, each-IsApart ts h.1)

  pinned_IsApart :
      (s : Source) → s.pinned ≡ true → IsApart (context_sources prefix messages extra) s
  pinned_IsApart s p q = cc

  recall-IsApart :
      (u : Text) → All (IsApart (context_sources prefix messages extra)) (recall_sources u)
  recall-IsApart [] = tt
  recall-IsApart (c ∷ u) = (λ q. cc, tt)

  sources-IsApart :
      All (IsFree extra) extra
      → All
          (IsApart (context_sources prefix messages extra))
          (context_sources prefix messages extra)
  unfolding context_sources
  sources-IsApart h =
      let P = IsApart (context_sources prefix messages extra) in
      All-append P extra _ (each-IsApart extra h)
        (All-append P (recall_sources prefix) _ (recall-IsApart prefix) ((λ q. cc), tt))

is_budget_stop-IsNoStop : (exc : Exc) → is_budget_stop exc ≡ false → IsNoStop exc
is_budget_stop-IsNoStop exc h =
    (λ n cap e. cc (ap is_budget_stop e), λ n cap e. cc (ap is_budget_stop e))

notes_are_system : (prefix : Text) (m : Message) → is_notes prefix m ≡ true → is_system m ≡ true
notes_are_system prefix m h = ground (arith, h)

recalled_held :
    (prefix : Text) (messages : List Message) (extra : List Source)
    → prefix ≢ []
    → any
        (holds (is_notes prefix) (notes_are_system prefix))
        (context_sources prefix messages extra)
      ≡ true
unfolding context_sources
recalled_held [] messages extra h = elim (h refl) [ ]
recalled_held (c ∷ prefix) messages extra h =
    let q = holds (is_notes (c ∷ prefix)) (notes_are_system (c ∷ prefix)) in
    let split = any-append q extra (recall_sources (c ∷ prefix) ++ agent_source messages ∷ []) in
    let same = (text_eq_iff (c ∷ prefix) (c ∷ prefix)).1 refl in ground (arith, split, same)

module _ {W : Type 0} (warn : Exc → W → W) (summarize : Summarizer W) where
  assembled-Sent :
      (sources : List Source) (prefix : Text) (messages out : List Message) (keep_recent : ℕ)
      (x : Result Exc CompileResult × W) (w' : W)
      → ((r : CompileResult) (v : W)
          → x ≡ (ok r, v)
          → Compiled (sort_by (by_key (λ s. s.order)) sources) keep_recent r.messages)
      → ((r : CompileResult)
          → Compiled (sort_by (by_key (λ s. s.order)) sources) keep_recent r.messages
          → prefix ≢ []
          → any (is_notes prefix) r.messages ≡ true)
      → assembled warn messages x ≡ (ok out, w')
      → Sent sources prefix messages keep_recent x out
  assembled-Sent sources prefix messages out keep_recent (ok r, w) w' c n h =
      let same : r.messages ≡ out = cc in
      subst (Sent sources prefix messages keep_recent (ok r, w)) same
        (compiled {r = r} {v = w} refl (c r w refl) (n r (c r w refl)))
  assembled-Sent sources prefix messages out keep_recent (err exc, w) w' c n h =
      elim (Bool-cases (is_budget_stop exc)) [
        | inl e ↦ cc (simp e at h)
        | inr e ↦
            let h' : ◌≡◌ {A = Result Exc (List Message) × W} (ok messages, warn exc w)
                (ok out, w') =
              simp e at h in
            let same : messages ≡ out = cc in
            subst (Sent sources prefix messages keep_recent (err exc, w)) same
              (as_is {exc = exc} {v = w} refl (is_budget_stop-IsNoStop exc e))
      ]

  -- how the compilation of a prompt's sources ends
  abbrev pub compilation : Assembly → List Message → List Source → W → Result Exc CompileResult × W
  compilation a messages extra =
      compile_context (context_sources a.recall_prefix messages extra)
        (when a.compaction_enabled a.max_context_tokens) (when a.compaction_enabled summarize)
        a.keep_recent

  -- The messages that are sent to the model are the agent's own as they are only where the
  -- compilation of the sources raised, and raised no budget stop. Else they are what is compiled of
  -- the sources, of which the agent's own messages and the recalled notes are pinned; and the recalled
  -- notes, if there are any, are one of the messages. Each source that may be dropped has a name of
  -- its own.
  pub compile_prompt-Sent :
      (a : Assembly) (messages out : List Message) (extra : List Source) (w w' : W)
      → All (IsFree extra) extra
      → compile_prompt warn summarize a messages extra w ≡ (ok out, w')
      → Sent
          (context_sources a.recall_prefix messages extra)
          a.recall_prefix
          messages
          a.keep_recent
          (compilation a messages extra w)
          out
  unfolding compile_prompt
  compile_prompt-Sent a messages out extra w w' free h =
      let sources = context_sources a.recall_prefix messages extra in
      let O = sort_by (by_key (λ s. s.order)) sources in
      let q = holds (is_notes a.recall_prefix) (notes_are_system a.recall_prefix) in
      assembled-Sent sources a.recall_prefix messages out a.keep_recent _ w'
        (λ r v e.
          compile_context-Compiled sources (when a.compaction_enabled a.max_context_tokens)
            (when a.compaction_enabled summarize) a.keep_recent w v r
            (sources-IsApart a.recall_prefix messages extra free) e)
        (λ r c some_notes.
          Compiled-any (is_notes a.recall_prefix) (notes_are_system a.recall_prefix) O a.keep_recent
            r.messages
            (any-sort_by (by_key (λ s. s.order)) q sources
              ∙ recalled_held a.recall_prefix messages extra some_notes)
            c)
        h
