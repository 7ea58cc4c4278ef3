-- ===== src/Exec.antt =====
-- Python's exceptions as values, and calls that mutate objects and may raise. What was written
-- before a raise stays written, so the state comes back beside an error too.
use lottie_orchestrator.Prelude.{ℕ, String, Option}

-- Why `CostGate` refuses a run (src/lottie/governance/cost.py); the amounts are in the message.
pub data BudgetReason : Type 0 where
  ledger_disabled ledger_unreadable reserve_failed : BudgetReason
  budget_reached : ℕ → ℕ → BudgetReason
  would_exceed : ℕ → ℕ → BudgetReason

-- An exception with what its message is made of. `screened` is a refusal by a content screen: its
-- class, what was refused and why. `raised` is any other class, by name, with its message.
pub data Exc : Type 0 where
  policy_denied policy_not_allowed policy_escalation : String → Exc
  budget_exceeded : BudgetReason → Exc
  capability_denied : String → Exc
  token_cap_exceeded turn_limit_exceeded : ℕ → ℕ → Exc
  unsafe_hasher : ℕ → Exc
  module_conflict : String → ℕ → String → Exc
  screened : String → String → String → Exc
  raised : String → String → Exc

pub data Result (E A : Type 0) : Type 0 where
  ok : A → Result E A
  err : E → Result E A

abbrev pub Exec : Type 0 → Type 0 → Type 0 → Type 0
Exec E S A = S → Result E A × S

module _ {E S A : Type 0} where
  abbrev pub pure : A → Exec E S A
  pure a s = (ok a, s)

  abbrev pub raise : E → Exec E S A
  raise e s = (err e, s)

  abbrev pub gets : (S → A) → Exec E S A
  gets f s = (ok (f s), s)

  -- `try: m` with `finally: k`, where `k` does not raise
  abbrev pub try_finally : Exec E S A → (S → S) → Exec E S A
  try_finally m k s = let (r, s') = m s in (r, k s')

abbrev pub modify : {E S : Type 0} → (S → S) → Exec E S (Unit {0})
modify f s = (ok tt, f s)

abbrev pub or_raise : {E S : Type 0} → Option E → Exec E S (Unit {0})
or_raise e s = elim e [ Option.none ↦ (ok tt, s) | Option.some x ↦ (err x, s) ]

infixl 5 ◌>>=◌ ◌>>◌
abbrev pub ◌>>=◌ : {E S A B : Type 0} → Exec E S A → (A → Exec E S B) → Exec E S B
◌>>=◌ m f s = let (r, s') = m s in elim r [ ok a ↦ f a s' | err e ↦ (err e, s') ]

abbrev pub ◌>>◌ : {E S B : Type 0} → Exec E S (Unit {0}) → Exec E S B → Exec E S B
m >> k = m >>= λ _. k
