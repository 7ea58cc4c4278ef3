-- ===== src/Governance/Admission.antt =====
-- governance/audit.py, `reserve`, `log` and `settle`: concurrent runs cannot spend past a budget.
use lottie_orchestrator.Prelude.{
  ℕ, ◌+◌, ◌≤◌, String, ◌≡◌, ◌≢◌, refl, ◌⊎◌, inl, inr, Option, none, some, Bool, false, not, ◌&&◌,
  ◌||◌, List, [], ◌∷◌, ◌++◌, arith, eq_iff, eq_refl, str_eq, ◌==◌, ltb, keep, sum_of, Bool-cases,
}
use lottie_orchestrator.Exec.{Exc}
use lottie_orchestrator.Governance.Ledger.{
  AuditRecord, Reservation, Ledger, held_by, is_fresh, committed, reserved, log, admit, reserve,
  settle,
}

abbrev pub Holds : Reservation → List Reservation → Type 0
Holds r [] = ⊥
Holds r (x ∷ xs) = (x ≡ r) ⊎ Holds r xs

abbrev pub has_id : List ℕ → ℕ → Bool
has_id [] n = false
has_id (m ∷ ms) n = (m == n) || has_id ms n

-- The database, and the ids of the reservations whose run has already been recorded.
pub record Shared : Type 0 where
  pub db : Ledger
  pub logged : List ℕ

module _ (agent : String) (budget : ℕ) where
  -- What one of any number of processes does next. A run of the agent records a cost of at most the
  -- amount that it holds, once; no reservation is older than the TTL when a new one is asked for.
  pub data Step : Shared → Shared → Type 0 where
    asked :
        (s : Shared) (amount now : ℕ)
        → keep (is_fresh now) s.db.reservations ≡ s.db.reservations
        → Step s (record s { db = (reserve agent amount budget now s.db).1 })
    recorded :
        (s : Shared) (r : Reservation) (row : AuditRecord)
        → Holds r s.db.reservations
        → r.agent ≡ agent
        → has_id s.logged r.id ≡ false
        → row.cost_usd ≤ r.amount
        → Step s (record { db = log row s.db; logged = r.id ∷ s.logged })
    settled : (s : Shared) (id : ℕ) → Step s (record s { db = settle id s.db })
    other_asked :
        (s : Shared) (other : String) (amount limit now : ℕ)
        → other ≢ agent
        → keep (is_fresh now) s.db.reservations ≡ s.db.reservations
        → Step s (record s { db = (reserve other amount limit now s.db).1 })
    other_recorded :
        (s : Shared) (row : AuditRecord)
        → row.agent ≢ agent
        → Step s (record s { db = log row s.db })
    faulted : (s : Shared) (f : Option Exc) → Step s (record s { db = record s.db { fault = f } })

  pub data Reach (s : Shared) : Shared → Type 0 where
    here : Reach s s
    next : {t u : Shared} → Reach s t → Step t u → Reach s u

  -- a reservation of the agent whose run has not been recorded yet
  abbrev is_open : List ℕ → Reservation → Bool
  is_open logged r = held_by agent r && not (has_id logged r.id)

  unfoldable pub open_amount : List ℕ → List Reservation → ℕ
  open_amount logged rs = sum_of (λ r. r.amount) (keep (is_open logged) rs)

  open_amount-le :
      (logged : List ℕ) (rs : List Reservation) → open_amount logged rs ≤ reserved agent rs
  unfolding open_amount reserved
  open_amount-le logged [] = omega arith
  open_amount-le logged (r ∷ rs) = ground (arith, open_amount-le logged rs)

  open_amount-cons :
      (logged : List ℕ) (id : ℕ) (rs : List Reservation)
      → open_amount (id ∷ logged) rs ≤ open_amount logged rs
  unfolding open_amount
  open_amount-cons logged id [] = omega arith
  open_amount-cons logged id (r ∷ rs) = ground (arith, open_amount-cons logged id rs)

  open_amount-recorded :
      (logged : List ℕ) (r : Reservation) (rs : List Reservation)
      → Holds r rs
      → r.agent ≡ agent
      → has_id logged r.id ≡ false
      → open_amount (r.id ∷ logged) rs + r.amount ≤ open_amount logged rs
  unfolding open_amount
  open_amount-recorded logged r [] h a l = absurd h
  open_amount-recorded logged r (x ∷ rs) (inl e) a l =
      rw e (rw (a, l, eq_refl agent) (ground (arith, open_amount-cons logged r.id rs)))
  open_amount-recorded logged r (x ∷ rs) (inr h) a l =
      ground (arith, open_amount-recorded logged r rs h a l)

  open_amount-keep :
      (logged : List ℕ) (p : Reservation → Bool) (rs : List Reservation)
      → open_amount logged (keep p rs) ≤ open_amount logged rs
  unfolding open_amount
  open_amount-keep logged p [] = omega arith
  open_amount-keep logged p (r ∷ rs) = ground (arith, open_amount-keep logged p rs)

  open_amount-snoc :
      (logged : List ℕ) (rs : List Reservation) (r : Reservation)
      → open_amount logged (rs ++ r ∷ []) ≤ open_amount logged rs + r.amount
  unfolding open_amount
  open_amount-snoc logged [] r = ground arith
  open_amount-snoc logged (x ∷ rs) r = ground (arith, open_amount-snoc logged rs r)

  open_amount-other :
      (logged : List ℕ) (rs : List Reservation) (r : Reservation)
      → str_eq r.agent agent ≡ false
      → open_amount logged (rs ++ r ∷ []) ≡ open_amount logged rs
  unfolding open_amount
  open_amount-other logged [] r h = ground arith
  open_amount-other logged (x ∷ rs) r h = ground (arith, open_amount-other logged rs r h)

  committed-snoc :
      (rows : List AuditRecord) (r : AuditRecord)
      → committed agent (rows ++ r ∷ []) ≤ committed agent rows + r.cost_usd
  unfolding committed
  committed-snoc [] r = ground arith
  committed-snoc (x ∷ rows) r = ground (arith, committed-snoc rows r)

  committed-other :
      (rows : List AuditRecord) (r : AuditRecord)
      → str_eq r.agent agent ≡ false
      → committed agent (rows ++ r ∷ []) ≡ committed agent rows
  unfolding committed
  committed-other [] r h = ground arith
  committed-other (x ∷ rows) r h = ground (arith, committed-other rows r h)

  -- What is spent, and what the open reservations may still spend, fits the budget.
  abbrev pub IsCovered : Shared → Type 0
  IsCovered s = committed agent s.db.rows + open_amount s.logged s.db.reservations ≤ budget

  asked-IsCovered :
      (s : Shared) (amount now : ℕ) (f : Option Exc)
      → s.db.fault ≡ f
      → keep (is_fresh now) s.db.reservations ≡ s.db.reservations
      → IsCovered s
      → IsCovered (record s { db = (reserve agent amount budget now s.db).1 })
  unfolding reserve admit
  asked-IsCovered s amount now (some exc) f fresh h = rw f h
  asked-IsCovered s amount now none f fresh h =
      elim (Bool-cases
        (ltb budget (committed agent s.db.rows + reserved agent s.db.reservations + amount))) [
          | inl full ↦ rw (f, fresh, full) h
          | inr fits ↦
              rw (f, fresh, fits)
                (ground (
                  arith,
                  open_amount-le s.logged s.db.reservations,
                  open_amount-snoc s.logged s.db.reservations
                      (record { id = s.db.next_id; agent = agent; amount = amount; created = now }),
                ))
        ]

  other_asked-IsCovered :
      (s : Shared) (other : String) (amount limit now : ℕ) (f : Option Exc)
      → s.db.fault ≡ f
      → str_eq other agent ≡ false
      → keep (is_fresh now) s.db.reservations ≡ s.db.reservations
      → IsCovered s
      → IsCovered (record s { db = (reserve other amount limit now s.db).1 })
  unfolding reserve admit
  other_asked-IsCovered s other amount limit now (some exc) f ne fresh h = rw f h
  other_asked-IsCovered s other amount limit now none f ne fresh h =
      elim (Bool-cases
        (ltb limit (committed other s.db.rows + reserved other s.db.reservations + amount))) [
          | inl full ↦ rw (f, fresh, full) h
          | inr fits ↦
              rw (f, fresh, fits)
                (rw
                  (open_amount-other s.logged s.db.reservations
                    (record { id = s.db.next_id; agent = other; amount = amount; created = now })
                    ne)
                  h)
        ]

  recorded-IsCovered :
      (s : Shared) (r : Reservation) (row : AuditRecord) (f : Option Exc)
      → s.db.fault ≡ f
      → Holds r s.db.reservations
      → r.agent ≡ agent
      → has_id s.logged r.id ≡ false
      → row.cost_usd ≤ r.amount
      → IsCovered s
      → IsCovered (record { db = log row s.db; logged = r.id ∷ s.logged })
  unfolding log
  recorded-IsCovered s r row (some exc) f m a l c h =
      rw f (omega (arith, open_amount-cons s.logged r.id s.db.reservations))
  recorded-IsCovered s r row none f m a l c h = rw f (
      omega (
        arith,
        open_amount-recorded s.logged r s.db.reservations m a l,
        committed-snoc s.db.rows row,
      ))

  other_recorded-IsCovered :
      (s : Shared) (row : AuditRecord) (f : Option Exc)
      → s.db.fault ≡ f
      → str_eq row.agent agent ≡ false
      → IsCovered s
      → IsCovered (record s { db = log row s.db })
  unfolding log
  other_recorded-IsCovered s row (some exc) f ne h = rw f h
  other_recorded-IsCovered s row none f ne h = rw f (rw (committed-other s.db.rows row ne) h)

  settled-IsCovered :
      (s : Shared) (id : ℕ) (f : Option Exc)
      → s.db.fault ≡ f
      → IsCovered s
      → IsCovered (record s { db = settle id s.db })
  unfolding settle
  settled-IsCovered s id (some exc) f h = rw f h
  settled-IsCovered s id none f h =
      rw f (omega (arith, open_amount-keep s.logged (λ r. not (r.id == id)) s.db.reservations))

  ne_eq : (a b : String) → a ≢ b → str_eq a b ≡ false
  ne_eq a b h = ground (arith, eq_iff a b)

  Step-IsCovered : {s t : Shared} → Step s t → IsCovered s → IsCovered t
  Step-IsCovered (asked s amount now fresh) h = asked-IsCovered s amount now s.db.fault refl fresh h
  Step-IsCovered (recorded s r row m a l c) h = recorded-IsCovered s r row s.db.fault refl m a l c h
  Step-IsCovered (settled s id) h = settled-IsCovered s id s.db.fault refl h
  Step-IsCovered (other_asked s other amount limit now ne fresh) h =
      other_asked-IsCovered s other amount limit now s.db.fault refl (ne_eq other agent ne) fresh h
  Step-IsCovered (other_recorded s row ne) h =
      other_recorded-IsCovered s row s.db.fault refl (ne_eq row.agent agent ne) h
  Step-IsCovered (faulted s f) h = h

  Reach-IsCovered : {s t : Shared} → IsCovered s → Reach s t → IsCovered t
  Reach-IsCovered h here = h
  Reach-IsCovered h (next r st) = Step-IsCovered st (Reach-IsCovered h r)

  -- However the reservations, records and settlements of any number of runs interleave, and whatever
  -- other agents and database faults do, the recorded spend of the agent stays within its budget.
  -- At the start the spend and the open reservations must fit it. Each run records at most the
  -- amount that it reserved, and no reservation outlives the TTL while a new one is asked for.
  pub Reach-within-budget :
      {s t : Shared} → IsCovered s → Reach s t → committed agent t.db.rows ≤ budget
  Reach-within-budget {t = t} h r = omega (arith, Reach-IsCovered h r)
