-- ===== src/Governance/Policy.antt =====
-- governance/policy.py: allow, deny and escalate rules over an agent's declared capabilities.
use lottie_orchestrator.Prelude.{String, Option, none, some, List, [], ◌∷◌, ◌++◌, if◌then◌else◌}
use lottie_orchestrator.Prelude.Sort.{sort_by}
use lottie_orchestrator.Prelude.Texts.{str_leb, contains}
use lottie_orchestrator.Exec.{
  Exc, policy_denied, policy_not_allowed, policy_escalation, raised, Result, ok, err,
}

pub record Policy : Type 0 where
  pub name : String
  pub allow : List String
  pub deny : List String
  pub escalate : List String

-- What is found at `policies/<name>.yaml`, once it has been read as YAML.
pub data PolicyFile : Type 0 where
  missing malformed empty not_mapping : PolicyFile
  mapping : Policy → PolicyFile

pub data PolicyGate : Type 0 where
  null_gate : PolicyGate
  gate : List String → List String → List String → List String → PolicyGate

config_error : String → Exc
config_error name = raised "PolicyConfigError" name

-- `load_policy`, from what the file holds
unfoldable pub load_policy : (String → PolicyFile) → String → Result Exc Policy
unfolding config_error
load_policy files name = elim (files name) [
  | missing ↦ err (config_error name)
  | malformed ↦ err (config_error name)
  | empty ↦ ok (record { name = name; allow = []; deny = []; escalate = [] })
  | not_mapping ↦ err (config_error name)
  | mapping p ↦ ok p
]

-- `PolicyGate(capabilities, ...)`
unfoldable pub policy_gate : List String → List String → List String → List String → PolicyGate
policy_gate capabilities allow deny escalate =
    gate (sort_by str_leb capabilities) allow deny escalate

-- the first of `caps` that is in `names`, as the loops of `check` look for it
unfoldable pub first_in : List String → List String → Option String
first_in names [] = none
first_in names (cap ∷ caps) =
    let rest = first_in names caps in if contains names cap then some cap else rest

unfoldable pub first_not_in : List String → List String → Option String
first_not_in names [] = none
first_not_in names (cap ∷ caps) =
    let rest = first_not_in names caps in if contains names cap then rest else some cap

-- `raise` for the capability that a loop stops at, or go on
unfoldable pub raise_for : (String → Exc) → Option String → Option Exc → Option Exc
raise_for exc (some cap) rest = some (exc cap)
raise_for exc none rest = rest

unfoldable pub check_allow : List String → List String → Option Exc
unfolding first_not_in raise_for
check_allow [] caps = none
check_allow (a ∷ allow) caps = raise_for policy_not_allowed (first_not_in (a ∷ allow) caps) none

-- `check`: the exception that it raises, if any. Deny goes before escalate, and that before allow.
unfoldable pub check : PolicyGate → Option Exc
unfolding first_in raise_for check_allow
check null_gate = none
check (gate caps allow deny escalate) =
    raise_for policy_denied (first_in deny caps)
      (raise_for policy_escalation (first_in escalate caps) (check_allow allow caps))

-- the loop of `build_policy_gate`, from the three sets so far
unfoldable pub merge_policies : (String → PolicyFile) → List String → Policy → Result Exc Policy
unfolding load_policy
merge_policies files [] merged = ok merged
merge_policies files (name ∷ names) merged = elim (load_policy files name) [
  | err e ↦ err e
  | ok p ↦ merge_policies files names (record merged {
    allow = merged.allow ++ p.allow;
    deny = merged.deny ++ p.deny;
    escalate = merged.escalate ++ p.escalate;
  })
]

unfoldable pub gate_of : List String → Result Exc Policy → Result Exc PolicyGate
unfolding policy_gate
gate_of capabilities (err e) = err e
gate_of capabilities (ok m) = ok (policy_gate capabilities m.allow m.deny m.escalate)

abbrev pub no_rules : Policy
no_rules = record { name = ""; allow = []; deny = []; escalate = [] }

unfoldable pub build_policy_gate :
    (String → PolicyFile) → List String → List String → Result Exc PolicyGate
unfolding merge_policies gate_of
build_policy_gate files [] capabilities = ok null_gate
build_policy_gate files (name ∷ names) capabilities =
    gate_of capabilities (merge_policies files (name ∷ names) no_rules)
