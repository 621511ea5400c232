-- ===== src/Metering.antt =====
-- Compute metering: the registry of workers and the log of submissions (src/worker_bounds.ts), and
-- the aggregation of a tenant's records (src/billing/aggregate.ts). A metric that the source stores
-- as a floating-point number has the abstract type `Real` of a `Floats`.
pub mod Workers
pub mod Pages
pub mod Strict
pub mod Complete
pub mod Aggregate
mod Tests
use materios_gateway.Prelude.{
  ℕ, ◌*◌, String, Text, str_eq, text_eq, codes_leb, Bool, true, false, not, ◌&&◌, ◌||◌, Option,
  none, some, List, [], ◌∷◌, leb, ltb, ◌==◌, take, if◌then◌else◌,
}
use materios_gateway.Sql.{select, insert_or_ignore, order_by}

-- The platform's floating-point numbers: their zero, the one for a safe integer, and their addition.
pub record Floats : Type 1 where
  pub Real : Type 0
  pub zero_real : Real
  pub of_safe : ℕ → Real
  pub add_real : Real → Real → Real

pub record MeteringSubmissionRow (R : Type 0) : Type 0 where
  pub content_hash : Text
  pub tenant_id : String
  pub worker_id : String
  pub period_start_ms : ℕ
  pub period_end_ms : ℕ
  pub cpu_seconds : R
  pub ram_gb_hours : R
  pub disk_gb_hours : R
  pub net_bytes_in : ℕ
  pub net_bytes_out : ℕ
  pub gpu_seconds : R
  pub submitted_at_ms : ℕ

-- The last row of a page.
pub record Cursor : Type 0 where
  pub period_start_ms : ℕ
  pub content_hash : Text

pub record MeteringQuery : Type 0 where
  pub tenant_id : String
  pub start_ms : ℕ
  pub end_ms : ℕ
  pub limit : ℕ
  pub after : Option Cursor

module _ {R : Type 0} where
  -- `INSERT OR IGNORE`: a row whose content hash is there changes nothing.
  pub record_metering_submission :
      MeteringSubmissionRow R → List (MeteringSubmissionRow R) → List (MeteringSubmissionRow R)
  record_metering_submission row =
      insert_or_ignore (λ r. text_eq r.content_hash row.content_hash) row

  -- `ORDER BY period_start_ms ASC, content_hash ASC`
  abbrev pub in_order : MeteringSubmissionRow R → MeteringSubmissionRow R → Bool
  in_order a b =
      ltb a.period_start_ms b.period_start_ms
      || (a.period_start_ms == b.period_start_ms && codes_leb a.content_hash b.content_hash)

  -- `tenant_id = ? AND period_start_ms >= ? AND period_start_ms < ?`
  abbrev pub in_window : MeteringQuery → MeteringSubmissionRow R → Bool
  in_window q r =
      str_eq r.tenant_id q.tenant_id
      && (leb q.start_ms r.period_start_ms && ltb r.period_start_ms q.end_ms)

  -- `period_start_ms > ? OR (period_start_ms = ? AND content_hash > ?)`
  abbrev pub behind : Cursor → MeteringSubmissionRow R → Bool
  behind c r =
      ltb c.period_start_ms r.period_start_ms
      || (r.period_start_ms == c.period_start_ms && not (codes_leb r.content_hash c.content_hash))

  abbrev pub after_cursor : Option Cursor → MeteringSubmissionRow R → Bool
  after_cursor none r = true
  after_cursor (some c) r = behind c r

  pub get_metering_submissions :
      MeteringQuery → List (MeteringSubmissionRow R) → List (MeteringSubmissionRow R)
  get_metering_submissions q rows =
      take q.limit (order_by in_order (select (λ r. in_window q r && after_cursor q.after r) rows))
