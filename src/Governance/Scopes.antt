-- ===== src/Governance/Scopes.antt =====
-- governance/middleware.py and governance/cost.py: what the cost module gives back, and what it
-- demands before it lets a run start.
use lottie_orchestrator.Prelude.{
  ℕ, ◌+◌, ◌≤◌, ◌<◌, ◌≡◌, ◌≢◌, subst, Option, none, some, true, not, List, [], ◌∷◌, All, arith, ◌==◌,
  keep, String, inl, inr, Bool-cases, Option-cases,
}
use lottie_orchestrator.Exec.{Exc, Result, ok, err, Exec}
use lottie_orchestrator.Runtime.Pipeline.{Run}
use lottie_orchestrator.Governance.Ledger
use lottie_orchestrator.Governance.Ledger.{
  Reservation, Ledger, committed, reserved, is_fresh, total_cost, admit,
}
use lottie_orchestrator.Governance.Cost
use lottie_orchestrator.Governance.Cost.{Budget, CostGate, null_gate, gate}
use lottie_orchestrator.Governance.Host.{Host}
use lottie_orchestrator.Governance.Modules.{
  cost_middleware, cost_settle, cost_call, note_refusal, on_host, with_ledger,
}

-- What a budget demands of the ledger: it can be read, and the spend is below the budget, or the
-- spend, the fresh reservations and the ceiling of this run fit it.
abbrev pub Affords : Budget → Option ℕ → ℕ → Ledger → Type 0
Affords b none now db = committed b.agent db.rows < b.budget_usd
Affords b (some amount) now db =
    committed b.agent db.rows + reserved b.agent (keep (is_fresh now) db.reservations) + amount
    ≤ b.budget_usd

reserve_by-Affords :
    (b : Budget) (ceiling : Option ℕ) (now : ℕ) (db : Ledger) (handle : Option ℕ)
    → (Cost.reserve_by b ceiling now db).0 ≡ ok handle
    → b.has_ledger ≡ true
    → (db.fault ≡ none) × Affords b ceiling now db
unfolding Cost.reserve_by
reserve_by-Affords b none now db handle h l =
    unfold Cost.check Cost.check_spent total_cost in ground arith
reserve_by-Affords b (some amount) now db handle h l = ground arith

-- A budget that lets a run start could read the ledger, and had room for the run: the gate fails
-- closed on a missing or unreadable ledger, on a budget that is spent, and on one that the ceiling
-- of the run would pass.
pub reserve_fails_closed :
    (b : Budget) (now : ℕ) (db : Ledger) (handle : Option ℕ)
    → (Cost.reserve (gate b) now db).0 ≡ ok handle
    → (b.has_ledger ≡ true) × (db.fault ≡ none) × Affords b b.max_run_usd now db
unfolding Cost.reserve
reserve_fails_closed b now db handle h = elim (Bool-cases b.has_ledger) [
  | inl l ↦
      let (readable, room) = reserve_by-Affords b b.max_run_usd now db handle (simp l at h) l in
      (l, readable, room)
  | inr l ↦ cc (simp l at h)
]

keep_removes :
    (id : ℕ) (rs : List Reservation) → All (λ r. r.id ≢ id) (keep (λ r. not (r.id == id)) rs)
keep_removes id [] = tt
keep_removes id (r ∷ rs) = elim (Bool-cases (r.id == id)) [
  | inl e ↦ rw e (keep_removes id rs)
  | inr e ↦ rw e (ground arith, keep_removes id rs)
]

settle_removes :
    (id : ℕ) (db : Ledger)
    → (Ledger.settle id db).fault ≡ none
    → All (λ r. r.id ≢ id) (Ledger.settle id db).reservations
unfolding Ledger.settle
settle_removes id db h = elim (Option-cases db.fault) [
  | inl e ↦ rw e (keep_removes id db.reservations)
  | inr (x, e) ↦ cc (rw (e, Ledger.settle) at h)
]

module _ {I A : Type 0} (audit_block : I → Exc → String → Host A → Host A) (b : Budget) where
  held_call-releases :
      {O : Type 0} (r : Result Exc (Option ℕ)) (nxt : Exec Exc (Run I (Host A)) O)
      (s : Run I (Host A)) (id : ℕ)
      → b.has_ledger ≡ true
      → r ≡ ok (some id)
      → let (r', s') = note_refusal audit_block r s in
        let out = cost_call audit_block (gate b) r' nxt s' in
        out.1.world.user.ledger.fault ≡ none
        → All (λ x. x.id ≢ id) out.1.world.user.ledger.reservations
  unfolding note_refusal cost_call cost_settle Cost.settle
  held_call-releases (err exc) nxt s id l e = cc
  held_call-releases (ok none) nxt s id l e = cc
  held_call-releases (ok (some k)) nxt s id l e =
      let same : k ≡ id = cc in rw (same, l) (settle_removes id (nxt s).1.world.user.ledger)

  call-releases :
      {O : Type 0} (nxt : Exec Exc (Run I (Host A)) O) (s : Run I (Host A)) (id : ℕ)
      → b.has_ledger ≡ true
      → (Cost.reserve (gate b) s.world.user.now s.world.user.ledger).0 ≡ ok (some id)
      → let out = (cost_middleware audit_block (gate b)).call nxt s in
        out.1.world.user.ledger.fault ≡ none
        → All (λ r. r.id ≢ id) out.1.world.user.ledger.reservations
  unfolding cost_middleware
  call-releases nxt s id l h =
      let (r, db) = Cost.reserve (gate b) s.world.user.now s.world.user.ledger in
      held_call-releases r nxt (on_host (with_ledger db) s) id l h

  -- The reservation that a cost module took for a run is gone when the run is over, whatever the
  -- rest of the chain did and however it ended, unless the database cannot be used at that moment.
  pub cost_middleware_releases :
      {O : Type 0} (nxt : Exec Exc (Run I (Host A)) O) (s t : Run I (Host A)) (id : ℕ)
      (r : Result Exc O)
      → b.has_ledger ≡ true
      → (Cost.reserve (gate b) s.world.user.now s.world.user.ledger).0 ≡ ok (some id)
      → (cost_middleware audit_block (gate b)).call nxt s ≡ (r, t)
      → t.world.user.ledger.fault ≡ none
      → All (λ x. x.id ≢ id) t.world.user.ledger.reservations
  cost_middleware_releases nxt s t id r l h e f =
      subst
        (λ out.
          out.1.world.user.ledger.fault ≡ none
          → All (λ x. x.id ≢ id) out.1.world.user.ledger.reservations)
        e (call-releases nxt s id l h) f
