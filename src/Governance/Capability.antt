-- ===== src/Governance/Capability.antt =====
-- governance/capability.py, and `BaseSkill` of core/base_skill.py: an agent calls only the skills
-- that it declares.
use lottie_orchestrator.Prelude.{String, Option, none, some, List, [], ◌∷◌, if◌then◌else◌}
use lottie_orchestrator.Prelude.Texts.{contains}
use lottie_orchestrator.Exec.{Exc, capability_denied}

pub data CapabilityGate : Type 0 where
  null_gate : CapabilityGate
  gate : List String → CapabilityGate

-- `check`: the exception that it raises, if any
unfoldable pub check : CapabilityGate → String → Option Exc
check null_gate capability = none
check (gate allowed) capability =
    if contains allowed capability then none else some (capability_denied capability)

-- `build_capability_gate`: no declaration, no enforcement
unfoldable pub build_capability_gate : List String → CapabilityGate
build_capability_gate [] = null_gate
build_capability_gate (c ∷ cs) = gate (c ∷ cs)

-- `active_capability_gate`, from the value of the context variable
unfoldable pub active_capability_gate : Option CapabilityGate → CapabilityGate
active_capability_gate none = null_gate
active_capability_gate (some g) = g
