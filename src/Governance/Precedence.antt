-- ===== src/Governance/Precedence.antt =====
-- governance/policy.py: what a policy gate admits, and what a merged gate refuses.
use lottie_orchestrator.Prelude.{
  String, ◌≡◌, refl, ◌↔◌, ◌⊎◌, inl, inr, Option, none, some, Bool, true, false, ◌||◌, List, [], ◌∷◌,
  ◌++◌, All, arith, Bool-cases, Option-cases, str_eq, eq_iff,
}
use lottie_orchestrator.Prelude.Sort.{sort_by, sort_by-All, All-of-sort_by}
use lottie_orchestrator.Prelude.Texts.{str_leb, contains}
use lottie_orchestrator.Exec.{
  Exc, policy_denied, policy_not_allowed, policy_escalation, Result, ok, err,
}
use lottie_orchestrator.Governance.Policy.{
  Policy, PolicyFile, PolicyGate, load_policy, policy_gate, first_in, first_not_in, raise_for,
  check_allow, check, merge_policies, no_rules, gate_of, build_policy_gate,
}

abbrev pub Within : List String → List String → Type 0
Within names caps = All (λ c. contains names c ≡ true) caps

abbrev pub Outside : List String → List String → Type 0
Outside names caps = All (λ c. contains names c ≡ false) caps

first_in-none : (names caps : List String) → first_in names caps ≡ none ↔ Outside names caps
unfolding first_in
first_in-none names [] = (λ _. tt, λ _. refl)
first_in-none names (c ∷ caps) = elim (Bool-cases (contains names c)) [
  | inl e ↦ rw e (λ h. cc, λ h. cc (h.0))
  | inr e ↦
      rw e (λ h. (refl, (first_in-none names caps).0 h), λ h. (first_in-none names caps).1 h.1)
]

first_not_in-none : (names caps : List String) → first_not_in names caps ≡ none ↔ Within names caps
unfolding first_not_in
first_not_in-none names [] = (λ _. tt, λ _. refl)
first_not_in-none names (c ∷ caps) = elim (Bool-cases (contains names c)) [
  | inl e ↦
      rw e
        (λ h. (refl, (first_not_in-none names caps).0 h), λ h. (first_not_in-none names caps).1 h.1)
  | inr e ↦ rw e (λ h. cc, λ h. cc (h.0))
]

raise_for-none :
    (exc : String → Exc) (o : Option String) (rest : Option Exc)
    → raise_for exc o rest ≡ none ↔ ((o ≡ none) × (rest ≡ none))
unfolding raise_for
raise_for-none exc none rest = (λ h. (refl, h), λ h. h.1)
raise_for-none exc (some cap) rest = (λ h. cc, λ h. cc (h.0))

check_allow-none :
    (allow caps : List String) → check_allow allow caps ≡ none ↔ ((allow ≡ []) ⊎ Within allow caps)
unfolding check_allow
check_allow-none [] caps = (λ h. inl refl, λ h. refl)
check_allow-none (a ∷ allow) caps = (
  λ h. inr ((first_not_in-none (a ∷ allow) caps).0 (missing.0 h).0),
  elim [ inl e ↦ cc | inr w ↦ missing.1 ((first_not_in-none (a ∷ allow) caps).1 w, refl) ],
)
  where
    missing :
        raise_for policy_not_allowed (first_not_in (a ∷ allow) caps) none ≡ none
        ↔ ((first_not_in (a ∷ allow) caps ≡ none) × (◌≡◌ {A = Option Exc} none none))
    missing = raise_for-none policy_not_allowed (first_not_in (a ∷ allow) caps) none

module _ (caps allow deny escalate : List String) where
  abbrev sorted : List String
  sorted = sort_by str_leb caps

  abbrev after_deny : Option Exc
  after_deny = raise_for policy_escalation (first_in escalate sorted) (check_allow allow sorted)

  denials :
      raise_for policy_denied (first_in deny sorted) after_deny ≡ none
      ↔ ((first_in deny sorted ≡ none) × (after_deny ≡ none))
  denials = raise_for-none policy_denied (first_in deny sorted) after_deny

  escalations :
      after_deny ≡ none ↔ ((first_in escalate sorted ≡ none) × (check_allow allow sorted ≡ none))
  escalations =
      raise_for-none policy_escalation (first_in escalate sorted) (check_allow allow sorted)

  to_caps : (names : List String) → Outside names sorted → Outside names caps
  to_caps names = All-of-sort_by str_leb (λ c. contains names c ≡ false) caps

  from_caps : (names : List String) → Outside names caps → Outside names sorted
  from_caps names = sort_by-All str_leb (λ c. contains names c ≡ false) caps

  to_allowed : ((allow ≡ []) ⊎ Within allow sorted) → ((allow ≡ []) ⊎ Within allow caps)
  to_allowed (inl n) = inl n
  to_allowed (inr w) = inr (All-of-sort_by str_leb (λ c. contains allow c ≡ true) caps w)

  from_allowed : ((allow ≡ []) ⊎ Within allow caps) → ((allow ≡ []) ⊎ Within allow sorted)
  from_allowed (inl n) = inl n
  from_allowed (inr w) = inr (sort_by-All str_leb (λ c. contains allow c ≡ true) caps w)

  -- A gate admits a run exactly when no declared capability is denied, none must be escalated, and
  -- all are allowed wherever the allow-list is not empty.
  pub check-policy_gate :
      check (policy_gate caps allow deny escalate) ≡ none
      ↔ (Outside deny caps × Outside escalate caps × ((allow ≡ []) ⊎ Within allow caps))
  unfolding check policy_gate
  check-policy_gate = (
    λ h.
        let (d, rest) = denials.0 h in
        let (e, a) = escalations.0 rest in
        (
          to_caps deny ((first_in-none deny sorted).0 d),
          to_caps escalate ((first_in-none escalate sorted).0 e),
          to_allowed ((check_allow-none allow sorted).0 a),
        ),
    λ (d, e, a). denials.1 (
      (first_in-none deny sorted).1 (from_caps deny d),
      escalations.1 (
        (first_in-none escalate sorted).1 (from_caps escalate e),
        (check_allow-none allow sorted).1 (from_allowed a),
      ),
    ),
  )

contains-append :
    (xs ys : List String) (x : String) → contains (xs ++ ys) x ≡ (contains xs x || contains ys x)
contains-append [] ys x = refl
contains-append (y ∷ xs) ys x = ground (arith, contains-append xs ys x)

Result-cases : {A : Type 0} (r : Result Exc A) → ((e : Exc) × (r ≡ err e)) ⊎ ((a : A) × (r ≡ ok a))
Result-cases (ok a) = inr (a, refl)
Result-cases (err e) = inl (e, refl)

-- A capability that is denied by what was merged so far stays denied.
merge_policies-keeps :
    (files : String → PolicyFile) (names : List String) (m m' : Policy) (c : String)
    → merge_policies files names m ≡ ok m'
    → contains m.deny c ≡ true
    → contains m'.deny c ≡ true
unfolding merge_policies
merge_policies-keeps files [] m m' c h d = let e : m ≡ m' = cc in rw (← e) d
merge_policies-keeps files (name ∷ names) m m' c h d =
    elim (Result-cases (load_policy files name)) [
      | inl (e, bad) ↦ cc (rw (bad, merge_policies) at h)
      | inr (p, found) ↦
          merge_policies-keeps files names _ m' c (rw (found, merge_policies) at h)
            (rw (contains-append m.deny p.deny c, d) refl)
    ]

or_true : (b : Bool) → (b || true) ≡ true
or_true b = ground arith

-- So does one that a merged file denies.
merge_policies-deny :
    (files : String → PolicyFile) (names : List String) (m m' : Policy) (name c : String)
    (p : Policy)
    → merge_policies files names m ≡ ok m'
    → contains names name ≡ true
    → load_policy files name ≡ ok p
    → contains p.deny c ≡ true
    → contains m'.deny c ≡ true
unfolding merge_policies
merge_policies-deny files [] m m' name c p h n l d = cc
merge_policies-deny files (x ∷ names) m m' name c p h n l d =
    elim (Result-cases (load_policy files x)) [
      | inl (e, bad) ↦ cc (rw (bad, merge_policies) at h)
      | inr (q, found) ↦ elim (Bool-cases (str_eq x name)) [
        | inl same ↦
            let e : x ≡ name = (eq_iff x name).0 same in
            let e' : q ≡ p = cc (rw e at found) in
            merge_policies-keeps files names _ m' c (rw (found, merge_policies) at h)
              (rw (contains-append m.deny q.deny c, e', d) (or_true (contains m.deny c)))
        | inr other ↦
            merge_policies-deny files names _ m' name c p (rw (found, merge_policies) at h)
              (rw other at n) l d
      ]
    ]

Outside-contains :
    (names caps : List String) (c : String)
    → Outside names caps
    → contains caps c ≡ true
    → contains names c ≡ false
Outside-contains names [] c o u = cc
Outside-contains names (x ∷ caps) c o u = elim (Bool-cases (str_eq x c)) [
  | inl same ↦ let e : x ≡ c = (eq_iff x c).0 same in rw e at (o.0)
  | inr other ↦ Outside-contains names caps c o.1 (rw other at u)
]

gate_denies :
    (caps allow deny escalate : List String) (c : String)
    → contains deny c ≡ true
    → contains caps c ≡ true
    → (denied : String) × (check (policy_gate caps allow deny escalate)
        ≡ some (policy_denied denied))
unfolding check policy_gate
gate_denies caps allow deny escalate c d u =
    elim (Option-cases (first_in deny (sort_by str_leb caps))) [
      | inl n ↦
          let o =
            Outside-contains deny caps c
              (All-of-sort_by str_leb (λ x. contains deny x ≡ false) caps
                ((first_in-none deny (sort_by str_leb caps)).0 n))
              u in
          cc
      | inr (x, e) ↦ (x, rw e)
    ]

-- Where one declared policy file denies a declared capability, the gate that is built refuses every
-- run, by a denial, whatever the other files allow.
pub build_policy_gate-denies :
    (files : String → PolicyFile) (names caps : List String) (g : PolicyGate) (name c : String)
    (p : Policy)
    → build_policy_gate files names caps ≡ ok g
    → contains names name ≡ true
    → load_policy files name ≡ ok p
    → contains p.deny c ≡ true
    → contains caps c ≡ true
    → (denied : String) × (check g ≡ some (policy_denied denied))
unfolding build_policy_gate
build_policy_gate-denies files [] caps g name c p h n l d u = cc
build_policy_gate-denies files (x ∷ names) caps g name c p h n l d u =
    elim (Result-cases (merge_policies files (x ∷ names) no_rules)) [
      | inl (e, bad) ↦ cc (rw (bad, gate_of) at h)
      | inr (m, merged) ↦
          let e : policy_gate caps m.allow m.deny m.escalate ≡ g = cc (rw (merged, gate_of) at h) in
          rw (← e) (
            gate_denies caps m.allow m.deny m.escalate c
              (merge_policies-deny files (x ∷ names) no_rules m name c p merged n l d) u)
    ]
