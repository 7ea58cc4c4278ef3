-- ===== src/Core/Tests/Secured.antt =====
-- The same agent with the real gate, whose scanners find nothing, and the memory and session modules.
use lottie_orchestrator.Prelude.{ℕ, ◌≡◌, refl, none, some, true, false, [], ◌∷◌}
use lottie_orchestrator.Prelude.Sort.{sort_by}
use lottie_orchestrator.Prelude.Texts.{Text, codes}
use lottie_orchestrator.Exec.{raised, ok, err}
use lottie_orchestrator.Runtime.Pipeline.{Run, Pipeline, sort_chain, execute}
use lottie_orchestrator.Core.Chain.{Mounts, standard_modules, build_chain}
use lottie_orchestrator.Core.Secured.{MemorySettings, mount, IsSecured, execute-IsSecured}
use lottie_orchestrator.Core.Tests.{Here, small, pipeline, begun}
use lottie_orchestrator.Security.Screens.{Tools}
use lottie_orchestrator.Session.Store.{Codec}
use lottie_orchestrator.Session.Module.{SessionPorts}
use lottie_orchestrator.Memory.Modules.{MemoryPorts}

abbrev tools : Tools
tools = record {
  finditer = λ r t. [];
  scanners = record { scan_file = λ path content. []; search = λ pattern line. false };
  tmp = codes "t" ∷ [];
  active = none;
}

abbrev codec : Codec Text
codec = record {
  dump = λ s. codes "{}";
  dump_indented = λ s. codes "{}";
  validate = λ t. err (raised "ValidationError" "");
  str = λ v. v;
}

abbrev session : SessionPorts ℕ Here Text
session = record {
  store = none;
  get_state = λ u. none;
  set_state = λ s u. u;
  usage = λ u. none;
  hasher = λ i. ok [];
  files = λ u. [];
  set_files = λ f u. u;
  now = λ u. u.now;
}

abbrev memory : MemoryPorts ℕ ℕ Here
memory = record {
  recall = λ q u. (err (raised "OperationalError" "locked"), u);
  set_prefix = λ t u. u;
  apply_deltas = λ ds n o u. (ok tt, u);
  call = λ ms u. (ok [], u);
  usage = λ u. none;
  dump_input = λ i. i ∷ [];
  dump_output = λ o. o ∷ [];
  dump_trajectory = λ t. t.task;
  str_cost = λ c. [];
  recall_namespace = codes "small";
  trajectory_namespace = codes "small";
  reflect_namespace = codes "small";
}

-- recall is on, and fails
abbrev settings : MemorySettings
settings = record {
  recall_enabled = true;
  recall_limit = 5;
  trajectory_enabled = true;
  max_chars = 100;
  reflect_enabled = true;
  max_run_tokens = some 1000;
}

abbrev mounted : Mounts ℕ ℕ (Unit {0})
mounted = mount codec tools small session memory settings

mounted_chain : build_chain mounted [] ≡ ok (standard_modules mounted)
unfolding build_chain lottie_orchestrator.Core.Screens.security_input_middleware
    lottie_orchestrator.Governance.Modules.policy_middleware
    lottie_orchestrator.Governance.Modules.cost_middleware mount
    lottie_orchestrator.Governance.Modules.depth_middleware
    lottie_orchestrator.Core.Screens.security_output_middleware
    lottie_orchestrator.Core.Screens.verify_middleware
    lottie_orchestrator.Governance.Modules.capability_middleware
mounted_chain = refl

abbrev secured : Pipeline ℕ ℕ Here
secured = record pipeline { chain = sort_chain (standard_modules mounted) }

abbrev ended : Run ℕ Here
ended = (execute secured 65 "r1" begun).1

ran : execute secured 65 "r1" begun ≡ (ok 66, ended)
unfolding execute lottie_orchestrator.Runtime.Pipeline.step
    lottie_orchestrator.Runtime.Pipeline.core_frame
    lottie_orchestrator.Runtime.Pipeline.checked_hash lottie_orchestrator.Runtime.Pipeline.is_sha256
    sort_chain sort_by standard_modules lottie_orchestrator.Core.Screens.verify_middleware
    lottie_orchestrator.Governance.Modules.capability_middleware
    lottie_orchestrator.Core.Screens.security_output_middleware mount
    lottie_orchestrator.Governance.Modules.depth_middleware
    lottie_orchestrator.Governance.Modules.cost_middleware
    lottie_orchestrator.Governance.Modules.policy_middleware
    lottie_orchestrator.Core.Screens.security_input_middleware
    lottie_orchestrator.Security.Markers.rules lottie_orchestrator.Governance.Policy.check
    lottie_orchestrator.Governance.Cost.reserve lottie_orchestrator.Prelude.Walks.splitlines
    lottie_orchestrator.Prelude.Walks.strip
ran = refl

execute-IsSecured_example : IsSecured tools small 65 66
execute-IsSecured_example =
    execute-IsSecured codec tools small session memory settings secured (standard_modules mounted)
      65 "r1" begun ended 66 mounted_chain refl ran
