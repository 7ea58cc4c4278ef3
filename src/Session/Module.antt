-- ===== src/Session/Module.antt =====
-- session/middleware.py: a run is added to the history of its session, whatever its outcome, and
-- nothing that fails there is felt by the run.
use lottie_orchestrator.Prelude.{ℕ, refl, Option, none, some}
use lottie_orchestrator.Prelude.Texts.{Text}
use lottie_orchestrator.Exec.{Exc, Result, ok, err, try_finally}
use lottie_orchestrator.Runtime.Events.{World, warn, noted}
use lottie_orchestrator.Runtime.Pipeline.{Run, Middleware}
use lottie_orchestrator.Files.{FilePath, Files}
use lottie_orchestrator.Security.Screens.{Tools}
use lottie_orchestrator.Core.Enforcement.{KeepsResult}
use lottie_orchestrator.Session.Store.{SessionState, SessionRun, Codec, record_run, save}

-- What the module is given: the store, which is none or its directory, and the functions that read
-- and write the agent. `U` is all that a run can touch, the files and the clock among it.
pub record SessionPorts (I U V : Type 0) : Type 0 where
  pub store : Option FilePath
  pub get_state : U → Option (SessionState V)
  pub set_state : SessionState V → U → U
  pub usage : U → Option SessionRun
  pub hasher : I → Result Exc Text
  pub files : U → Files
  pub set_files : Files → U → U
  pub now : U → ℕ

module _ {I U V : Type 0} (codec : Codec V) (tools : Tools) (ports : SessionPorts I U V) where
  -- after `save`
  abbrev pub saved : Result Exc (SessionState V) × Files → World U → World U
  saved (ok state, files) w = record w {
    user = ports.set_state state (ports.set_files files w.user);
  }
  saved (err exc, files) w =
      warn (noted "session record failed" exc) (record w { user = ports.set_files files w.user })

  -- the `try` of `_record`, from the hash of the input on
  abbrev pub append_run :
      FilePath → SessionState V → SessionRun → Result Exc Text → World U → World U
  append_run base state partial (err exc) w = warn (noted "session record failed" exc) w
  append_run base state partial (ok digest) w =
      let now = ports.now w.user in
      let run : SessionRun = record partial { ts = now; input_sha256 = some digest } in
      saved (save codec tools base (record_run state run) now (ports.files w.user)) w

  abbrev pub record_used : FilePath → SessionState V → I → Option SessionRun → World U → World U
  record_used base state input none w = w
  record_used base state input (some partial) w =
      append_run base state partial (ports.hasher input) w

  abbrev pub record_in : Option (SessionState V) → Option FilePath → I → World U → World U
  record_in none store input w = w
  record_in (some state) none input w = w
  record_in (some state) (some base) input w = record_used base state input (ports.usage w.user) w

  -- `_record`
  unfoldable pub record_session : Run I U → Run I U
  unfolding record_run save
  record_session s = record s {
    world = record_in (ports.get_state s.world.user) ports.store s.ctx.input s.world;
  }

  -- `SessionMiddleware`
  unfoldable pub session_middleware : {O : Type 0} → Middleware I O U
  unfolding record_session
  session_middleware = record {
    name = "session";
    order = 34;
    call = λ nxt. try_finally nxt record_session;
    scope = none;
  }

  pub session-KeepsResult : {O : Type 0} → KeepsResult (session_middleware {O = O})
  unfolding session_middleware
  session-KeepsResult = record {
    from = λ nxt s. s;
    left = λ nxt s. record_session (nxt s).1;
    same = λ nxt s. refl;
    gives = λ nxt s. refl;
  }
