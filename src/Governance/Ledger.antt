-- ===== src/Governance/Ledger.antt =====
-- governance/audit.py and governance/schema.py: the audit ledger, and the budget reservations in the
-- same database. A table is the list of its rows, oldest first. SQLite is not modelled further than
-- by what each statement does to the rows, or the exception that it raises, which leaves them alone.
use lottie_orchestrator.Prelude.{
  ℕ, ◌+◌, String, Option, none, some, Bool, not, List, [], ◌∷◌, ◌++◌, str_eq, ltb, ◌==◌, keep,
  sum_of, if◌then◌else◌,
}
use lottie_orchestrator.Prelude.Texts.{Text}
use lottie_orchestrator.Exec.{Exc, Result, ok, err}

-- Costs and amounts are whole micro-dollars, times are milliseconds.
pub record AuditRecord : Type 0 where
  pub ts : ℕ
  pub agent : String
  pub provider : Option String
  pub status : String
  pub root : Bool
  pub input_sha256 : Text
  pub output_sha256 : Option Text
  pub input_tokens : ℕ
  pub output_tokens : ℕ
  pub cost_usd : ℕ
  pub latency_ms : ℕ
  pub error : Option Exc

pub record Reservation : Type 0 where
  pub id : ℕ
  pub agent : String
  pub amount : ℕ
  pub created : ℕ

-- `fault` is the exception that the next statement raises, if the database cannot be used;
-- `next_id` is SQLite's AUTOINCREMENT counter.
pub record Ledger : Type 0 where
  pub rows : List AuditRecord
  pub reservations : List Reservation
  pub next_id : ℕ
  pub fault : Option Exc
  pub warnings : List Exc

abbrev pub reservation_ttl : ℕ
reservation_ttl = 3600000

-- `log`: best-effort
unfoldable pub log : AuditRecord → Ledger → Ledger
log r db = elim db.fault [
  | some exc ↦ record db { warnings = db.warnings ++ exc ∷ [] }
  | none ↦ record db { rows = db.rows ++ r ∷ [] }
]

-- WHERE agent = ?
abbrev pub of_agent : String → AuditRecord → Bool
of_agent agent r = str_eq r.agent agent

abbrev pub held_by : String → Reservation → Bool
held_by agent r = str_eq r.agent agent

-- SUM(cost_usd) and SUM(amount) of one agent
unfoldable pub committed : String → List AuditRecord → ℕ
committed agent rows = sum_of (λ r. r.cost_usd) (keep (of_agent agent) rows)

unfoldable pub reserved : String → List Reservation → ℕ
reserved agent rs = sum_of (λ r. r.amount) (keep (held_by agent) rs)

unfoldable pub total_cost : String → Ledger → Result Exc ℕ
unfolding committed
total_cost agent db = elim db.fault [ some exc ↦ err exc | none ↦ ok (committed agent db.rows) ]

-- NOT (created < now - ttl)
abbrev pub is_fresh : ℕ → Reservation → Bool
is_fresh now r = not (ltb (r.created + reservation_ttl) now)

-- The transaction of `reserve`, on a database that can be used. A refusal rolls the sweep back.
unfoldable pub admit : String → ℕ → ℕ → ℕ → Ledger → Option ℕ × Ledger
unfolding committed reserved
admit agent amount budget now db =
    let swept = keep (is_fresh now) db.reservations in
    if ltb budget (committed agent db.rows + reserved agent swept + amount) then (none, db) else (
      some db.next_id,
      record db {
        reservations =
            swept ++ record { id = db.next_id; agent = agent; amount = amount; created = now } ∷ [];
        next_id = db.next_id + 1;
      },
    )

unfoldable pub reserve : String → ℕ → ℕ → ℕ → Ledger → Result Exc (Option ℕ) × Ledger
unfolding admit
reserve agent amount budget now db = elim db.fault [
  | some exc ↦ (err exc, db)
  | none ↦ let (handle, db') = admit agent amount budget now db in (ok handle, db')
]

-- `settle`: best-effort
unfoldable pub settle : ℕ → Ledger → Ledger
settle id db = elim db.fault [
  | some exc ↦ record db { warnings = db.warnings ++ exc ∷ [] }
  | none ↦ record db { reservations = keep (λ r. not (r.id == id)) db.reservations }
]
