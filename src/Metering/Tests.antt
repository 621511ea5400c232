-- ===== src/Metering/Tests.antt =====
-- Runs on concrete workers and records, and the theorems at such inputs.
use materios_gateway.Prelude.{
  ◌<◌, arith, ℕ, ◌+◌, ◌≡◌, ◌≢◌, refl, String, Text, str_eq-false-ne, codes, Option, none, some,
  List, [], ◌∷◌, length,
}
use materios_gateway.Sql.{count}
use materios_gateway.Metering.{
  Floats, MeteringSubmissionRow, MeteringQuery, get_metering_submissions,
  record_metering_submission,
}
use materios_gateway.Metering.Complete.{fetch_all, window_of, fetch_all_complete}
use materios_gateway.Metering.Workers.{
  WorkerBounds, WorkerBoundsRow, default_bounds, get_worker_bounds, upsert_worker_bounds,
}
use materios_gateway.Metering.Aggregate.{AggregatableRecord, certified, aggregate_records}
use materios_gateway.Metering.Aggregate.Totals.{
  sum_of, certified_record, anchored_record, tee_record, aggregate_records_lem,
}

abbrev whole : Floats
whole = record { Real = ℕ; zero_real = 0; of_safe = λ n. n; add_real = λ a b. a + b }

abbrev small : WorkerBounds
small = record { max_cpu_cores = 4; max_ram_gb = 16; max_disk_gb = 100; max_gpu_count = 1 }

abbrev registered : List WorkerBoundsRow
registered = record { worker_id = "w1"; bounds = small; created_at = 5; updated_at = 5 } ∷ []

registration : upsert_worker_bounds "w1" small 5 [] ≡ some registered
unfolding upsert_worker_bounds
registration = refl

no_gpu : upsert_worker_bounds "w1" (record small { max_gpu_count = 0 }) 5 [] ≡ none
unfolding upsert_worker_bounds
no_gpu = refl

unregistered : get_worker_bounds "w2" registered ≡ default_bounds
unfolding get_worker_bounds
unregistered = refl

abbrev w1 : String
w1 = "w1"

abbrev w2 : String
w2 = "w2"

other_worker : w2 ≢ w1
other_worker = str_eq-false-ne w2 w1 refl

abbrev submission : Text → ℕ → MeteringSubmissionRow ℕ
submission h t = record {
  content_hash = h;
  tenant_id = "acme";
  worker_id = "w1";
  period_start_ms = t;
  period_end_ms = t + 60_000;
  cpu_seconds = 1;
  ram_gb_hours = 2;
  disk_gb_hours = 3;
  net_bytes_in = 4;
  net_bytes_out = 5;
  gpu_seconds = 6;
  submitted_at_ms = t + 61_000;
}

abbrev query : MeteringQuery
query = record {
  tenant_id = "acme";
  start_ms = 100;
  end_ms = 300;
  limit = 2;
  after = some (record { period_start_ms = 100; content_hash = codes "aa" });
}

abbrev submissions : List (MeteringSubmissionRow ℕ)
submissions =
    submission (codes "dd") 300
    ∷ submission (codes "cc") 200
    ∷ submission (codes "aa") 100
    ∷ submission (codes "bb") 100
    ∷ []

second_page :
    get_metering_submissions query submissions
    ≡ submission (codes "bb") 100 ∷ submission (codes "cc") 200 ∷ []
unfolding get_metering_submissions
second_page = refl

abbrev keyed : List (MeteringSubmissionRow ℕ)
keyed = submission (codes "cc") 200 ∷ submission (codes "aa") 100 ∷ submission (codes "bb") 100 ∷ []

-- A retry under the same content hash adds nothing.
retry_ignored : record_metering_submission (submission (codes "aa") 200) keyed ≡ keyed
unfolding record_metering_submission
retry_ignored = refl

abbrev from_start : MeteringQuery
from_start = record query { after = none }

three_in_window : length (window_of from_start keyed) < 5
three_in_window = omega arith

fetch_all_complete_example : fetch_all 5 from_start keyed ≡ some (window_of from_start keyed)
fetch_all_complete_example =
    fetch_all_complete 5 from_start keyed (refl, (refl, (refl, tt))) refl (omega arith)
      three_in_window

abbrev usage_record : ℕ → Option String → AggregatableRecord ℕ
usage_record t tx = record {
  worker_id = "w1";
  tenant_id = "acme";
  period_start_ms = t;
  period_end_ms = t + 60_000;
  cpu_seconds = 1;
  ram_gb_hours = 2;
  disk_gb_hours = 3;
  net_bytes_in = 4;
  net_bytes_out = 5;
  gpu_seconds = 6;
  attestation_status = certified;
  cardano_anchor_tx = tx;
  composite_trust_score = some 1;
}

abbrev usage : List (AggregatableRecord ℕ)
usage = usage_record 200 none ∷ usage_record 100 (some "tx") ∷ []

workers_counted : (aggregate_records whole usage).unique_workers ≡ 1
unfolding aggregate_records
workers_counted = refl

aggregate_records_lem_example :
    ((((aggregate_records whole usage).record_count ≡ length usage)
        × ((aggregate_records whole usage).certified_count ≡ count (certified_record whole) usage))
      × (((aggregate_records whole usage).anchored_count ≡ count (anchored_record whole) usage)
          × ((aggregate_records whole usage).tee_attested_count ≡ count (tee_record whole) usage)))
    × (((aggregate_records whole usage).net_bytes_in_total ≡ sum_of (λ r. r.net_bytes_in) usage)
        × ((aggregate_records whole usage).net_bytes_out_total
            ≡ sum_of (λ r. r.net_bytes_out) usage))
aggregate_records_lem_example =
    aggregate_records_lem whole refl (λ a b h. refl) usage (omega arith) (omega arith)
