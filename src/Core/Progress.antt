-- ===== src/Core/Progress.antt =====
-- core/base_agent.py: the session of an agent, and what its runs report to the modules of the memory
-- and session packages.
use lottie_orchestrator.Prelude.{ℕ, String, Option, none, some, Bool, List, [], ◌∷◌, if◌then◌else◌}
use lottie_orchestrator.Prelude.Texts.{Text}
use lottie_orchestrator.Prelude.Walks.{text_eq}
use lottie_orchestrator.Exec.{Exc, Result, ok, err, Exec}
use lottie_orchestrator.Files.{FilePath, Files}
use lottie_orchestrator.Security.Screens.{Tools}
use lottie_orchestrator.Session.Store.{SessionRun, SessionState, Codec, start, save}
use lottie_orchestrator.Memory.Modules.{RunUsage}

-- `last_metrics`
pub record RunMetrics : Type 0 where
  pub success : Bool
  pub error : Option String
  pub error_text : Option Text
  pub input_tokens : ℕ
  pub output_tokens : ℕ
  pub cost_usd : ℕ
  pub latency_ms : ℕ

-- `_session_run`; the time is stamped by the module
unfoldable pub session_run : Option RunMetrics → Option SessionRun
session_run none = none
session_run (some m) = some (record {
  ts = 0;
  status = if m.success then "ok" else "error";
  input_sha256 = none;
  latency_ms = m.latency_ms;
  input_tokens = m.input_tokens;
  output_tokens = m.output_tokens;
  cost_usd = m.cost_usd;
  error = m.error;
})

-- `_run_usage`
unfoldable pub run_usage : Option RunMetrics → Option RunUsage
run_usage none = none
run_usage (some m) = some (record {
  success = m.success;
  error = m.error_text;
  input_tokens = m.input_tokens;
  output_tokens = m.output_tokens;
  cost_usd = m.cost_usd;
  latency_ms = m.latency_ms;
})

-- `_session` and `_session_store`, with the files of the store
pub record Progress (V : Type 0) : Type 0 where
  pub session : Option (SessionState V)
  pub store : Option FilePath
  pub files : Files

-- `d[k] = v`, on the entries of a dict in their order
unfoldable pub put {ℓ} : {V : Type ℓ} → Text → V → List (Text × V) → List (Text × V)
put k v [] = (k, v) ∷ []
put k v ((j, w) ∷ d) = let rest = (j, w) ∷ put k v d in if text_eq j k then (k, v) ∷ d else rest

-- `{**d, **updates}`
unfoldable pub merged {ℓ} : {V : Type ℓ} → List (Text × V) → List (Text × V) → List (Text × V)
unfolding put
merged d [] = d
merged d ((k, v) ∷ updates) = merged (put k v d) updates

module _ {V : Type 0} (codec : Codec V) (tools : Tools) where
  abbrev pub attached :
      FilePath → Progress V → Result Exc (SessionState V) → Result Exc (Unit {0}) × Progress V
  attached base s (err e) = (err e, record s { store = some base })
  attached base s (ok state) = (ok tt, record s { store = some base; session = some state })

  -- `set_session`
  unfoldable pub set_session : FilePath → Text → String → ℕ → Exec Exc (Progress V) (Unit {0})
  unfolding start
  set_session base session_id name now s =
      attached base s (start codec tools base session_id name now s.files)

  abbrev pub progress_of : Option (SessionState V) → List (Text × V)
  progress_of none = []
  progress_of (some state) = state.progress

  -- `session_progress`
  unfoldable pub session_progress : Progress V → List (Text × V)
  session_progress s = progress_of s.session

  -- the session in memory was merged already, whether or not it is saved
  abbrev pub persisted :
      SessionState V
      → Progress V
      → Result Exc (SessionState V) × Files
      → Result Exc (Unit {0}) × Progress V
  persisted state s (err e, files) = (err e, record s { session = some state; files = files })
  persisted state s (ok stamped, files) =
      (ok tt, record s { session = some stamped; files = files })

  abbrev pub save_merged :
      List (Text × V)
      → ℕ
      → Option (SessionState V)
      → Option FilePath
      → Exec Exc (Progress V) (Unit {0})
  save_merged updates now none store s = (ok tt, s)
  save_merged updates now (some state) none s = (ok tt, s)
  save_merged updates now (some state) (some base) s =
      let state' = record state { progress = merged state.progress updates } in
      persisted state' s (save codec tools base state' now s.files)

  -- `save_progress`
  unfoldable pub save_progress : List (Text × V) → ℕ → Exec Exc (Progress V) (Unit {0})
  unfolding merged save
  save_progress updates now s = save_merged updates now s.session s.store s

  -- `_set_session_state`
  unfoldable pub set_session_state : SessionState V → Progress V → Progress V
  set_session_state state s = record s { session = some state }
