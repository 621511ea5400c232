-- ===== src/Metering/Aggregate.antt =====
-- The billing aggregate of a tenant's records (aggregateRecords of src/billing/aggregate.ts). The
-- validator lets only safe integers through as bytes; their totals are floating-point numbers.
pub mod Totals
use materios_gateway.Prelude.{
  ℕ, ◌+◌, String, str_eq, Bool, true, false, Option, none, some, List, [], ◌∷◌, ◌++◌, length, any,
  leb, ltb, is_some, if◌then◌else◌,
}
use materios_gateway.Metering.{Floats}

pub data AttestationStatus : Type 0 where
  certified pending unknown : AttestationStatus

abbrev pub is_certified : AttestationStatus → Bool
is_certified certified = true
is_certified pending = false
is_certified unknown = false

-- A trust score below zero does not occur.
pub record AggregatableRecord (R : Type 0) : Type 0 where
  pub worker_id : String
  pub tenant_id : String
  pub period_start_ms : ℕ
  pub period_end_ms : ℕ
  pub cpu_seconds : R
  pub ram_gb_hours : R
  pub disk_gb_hours : R
  pub net_bytes_in : ℕ
  pub net_bytes_out : ℕ
  pub gpu_seconds : R
  pub attestation_status : AttestationStatus
  pub cardano_anchor_tx : Option String
  pub composite_trust_score : Option ℕ

pub record BillingAggregate (R : Type 0) : Type 0 where
  pub record_count : ℕ
  pub certified_count : ℕ
  pub anchored_count : ℕ
  pub tee_attested_count : ℕ
  pub cpu_seconds_total : R
  pub ram_gb_hours_total : R
  pub disk_gb_hours_total : R
  pub net_bytes_in_total : R
  pub net_bytes_out_total : R
  pub gpu_seconds_total : R
  pub first_record_ms : Option ℕ
  pub last_record_ms : Option ℕ
  pub unique_workers : ℕ

-- `score >= 1`, which null is not
abbrev pub is_tee_attested : Option ℕ → Bool
is_tee_attested none = false
is_tee_attested (some score) = leb 1 score

abbrev pub bump : Bool → ℕ → ℕ
bump b n = n + (if b then 1 else 0)

abbrev pub earlier : Option ℕ → ℕ → Option ℕ
earlier none t = some t
earlier (some s) t = if ltb t s then some t else some s

abbrev pub later : Option ℕ → ℕ → Option ℕ
later none t = some t
later (some s) t = if ltb s t then some t else some s

-- `Set.add`
abbrev pub add_worker : String → List String → List String
add_worker w ws = if any (λ v. str_eq v w) ws then ws else ws ++ w ∷ []

module _ (F : Floats) where
  abbrev pub empty_aggregate : BillingAggregate F.Real
  empty_aggregate = record {
    record_count = 0;
    certified_count = 0;
    anchored_count = 0;
    tee_attested_count = 0;
    cpu_seconds_total = F.zero_real;
    ram_gb_hours_total = F.zero_real;
    disk_gb_hours_total = F.zero_real;
    net_bytes_in_total = F.zero_real;
    net_bytes_out_total = F.zero_real;
    gpu_seconds_total = F.zero_real;
    first_record_ms = none;
    last_record_ms = none;
    unique_workers = 0;
  }

  abbrev pub add_record :
      BillingAggregate F.Real → AggregatableRecord F.Real → BillingAggregate F.Real
  add_record t r = record {
    record_count = t.record_count + 1;
    certified_count = bump (is_certified r.attestation_status) t.certified_count;
    anchored_count = bump (is_some r.cardano_anchor_tx) t.anchored_count;
    tee_attested_count = bump (is_tee_attested r.composite_trust_score) t.tee_attested_count;
    cpu_seconds_total = F.add_real t.cpu_seconds_total r.cpu_seconds;
    ram_gb_hours_total = F.add_real t.ram_gb_hours_total r.ram_gb_hours;
    disk_gb_hours_total = F.add_real t.disk_gb_hours_total r.disk_gb_hours;
    net_bytes_in_total = F.add_real t.net_bytes_in_total (F.of_safe r.net_bytes_in);
    net_bytes_out_total = F.add_real t.net_bytes_out_total (F.of_safe r.net_bytes_out);
    gpu_seconds_total = F.add_real t.gpu_seconds_total r.gpu_seconds;
    first_record_ms = earlier t.first_record_ms r.period_start_ms;
    last_record_ms = later t.last_record_ms r.period_start_ms;
    unique_workers = t.unique_workers;
  }

  -- the loop, over the totals and the set of workers
  abbrev pub add_all :
      BillingAggregate F.Real
      → List String
      → List (AggregatableRecord F.Real)
      → BillingAggregate F.Real
  add_all t ws [] = record t { unique_workers = length ws }
  add_all t ws (r ∷ rs) = add_all (add_record t r) (add_worker r.worker_id ws) rs

  unfoldable pub aggregate_records : List (AggregatableRecord F.Real) → BillingAggregate F.Real
  aggregate_records rs = add_all empty_aggregate [] rs
