-- ===== src/Quota/Tests.antt =====
-- Runs of the quota functions on concrete tables, and the theorems at such inputs.
use materios_gateway.Prelude.{
  ◌+◌, ◌==◌, ◌≡◌, refl, str_eq, Text, codes, true, false, ◌&&◌, none, some, List, [], ◌∷◌, arith,
  if◌then◌else◌,
}
use materios_gateway.Quota.Tables.{
  Ledger, QuotaDb, KeyInfo, allowed, denied, active, concurrent_uploads, daily_bytes, is_allowed,
  today,
}
use materios_gateway.Quota.Uploads.{
  Uploader, AccountConfig, clean_stale_inflight, of_key, of_account, charge_daily_bytes,
  start_upload, finalize_upload, get_daily_usage, start_key_upload, record_key_chunk_bytes,
  finalize_key_upload, start_account_upload, record_account_chunk_bytes,
  charge_account_manifest_bytes, finalize_account_upload, charge_manifest_bytes, record_chunk_bytes,
}
use materios_gateway.Quota.Uploads.Usage.{charge_daily_bytes_usage}
use materios_gateway.Quota.Uploads.Slots.{holds, start_upload_takes}
use materios_gateway.Quota.Uploads.Run.{
  start, chunk, manifest, finalize, Request, run, Limits, IsUnder, IsWithin, run-IsWithin,
}
use materios_gateway.Quota.Signatures.{claim_upload_signatures, unique}
use materios_gateway.Quota.Signatures.Replay.{claims, claim_once}

abbrev alice_info : KeyInfo
alice_info = record {
  key_hash = "hash:key";
  name = "alice";
  enabled = true;
  max_receipts_per_day = 2;
  max_bytes_per_day = 1_000;
  max_concurrent_uploads = 1;
  validator_id = some "5Alice";
  bound_validator_aura = none;
}

abbrev alice : Uploader
alice = of_key alice_info

abbrev empty_ledger : Ledger
empty_ledger = record { daily = []; inflight = [] }

abbrev empty_db : QuotaDb
empty_db = record {
  api_keys = [];
  keys = empty_ledger;
  accounts = empty_ledger;
  used_upload_sigs = [];
}

abbrev account_config : AccountConfig
account_config = record {
  sig_only_max_receipts_per_day = 1;
  sig_only_max_bytes_per_day = 500;
  sig_only_max_concurrent_uploads = 1;
}

-- The second upload is refused while the first is active, and starts once that is ten minutes old.
second_start :
    (start_key_upload alice_info "c2" 5_000 (start_key_upload alice_info "c1" 1_000 empty_db).1).0
    ≡ denied concurrent_uploads 1 1
unfolding start_key_upload start_upload clean_stale_inflight
second_start = refl

late_start :
    is_allowed
      (start_key_upload alice_info "c2" 700_000
        (start_key_upload alice_info "c1" 1_000 empty_db).1).0
    ≡ true
unfolding start_key_upload start_upload clean_stale_inflight
late_start = refl

chunk_over :
    (record_key_chunk_bytes alice_info "c1" 400 2_000
      (record_key_chunk_bytes alice_info "c1" 700 1_000 empty_db).1).0
    ≡ denied daily_bytes 1_000 700
unfolding record_key_chunk_bytes record_chunk_bytes charge_daily_bytes
chunk_over = refl

finalized : is_allowed (finalize_key_upload alice_info "c1" 3_000 empty_db).0 ≡ true
unfolding finalize_key_upload finalize_upload
finalized = refl

account_start : (start_account_upload account_config "5Bob" "c1" 1_000 empty_db).0 ≡ allowed none
unfolding start_account_upload start_upload clean_stale_inflight
account_start = refl

account_chunk :
    (record_account_chunk_bytes account_config "5Bob" "c1" 501 1_000 empty_db).0
    ≡ denied daily_bytes 500 0
unfolding record_account_chunk_bytes record_chunk_bytes charge_daily_bytes
account_chunk = refl

account_manifest :
    (charge_account_manifest_bytes account_config "5Bob" 500 1_000 empty_db).0 ≡ allowed none
unfolding charge_account_manifest_bytes charge_manifest_bytes charge_daily_bytes
account_manifest = refl

account_finalize :
    (finalize_account_upload account_config "5Bob" "c1" 1_000 empty_db).0 ≡ allowed none
unfolding finalize_account_upload finalize_upload
account_finalize = refl

abbrev two_limits : Limits
two_limits = record { receipts = λ o. 2; bytes = λ o. 1_000; concurrent = λ o. 1 }

abbrev a_day : List (Uploader × Request)
a_day =
    (alice, start "c1" 1_000)
    ∷ (alice, chunk "c1" 400 2_000)
    ∷ (alice, finalize "c1" 3_000)
    ∷ (alice, manifest 700 4_000)
    ∷ []

alice-IsUnder : IsUnder two_limits alice
alice-IsUnder = record { receipts = refl; bytes = refl; concurrent = refl }

empty-IsWithin : IsWithin two_limits empty_ledger
unfolding get_daily_usage
empty-IsWithin = record {
  receipts = λ o d. omega arith;
  bytes = λ o d. omega arith;
  concurrent = λ o. omega arith;
}

run-IsWithin_example : IsWithin two_limits (run a_day empty_ledger)
run-IsWithin_example =
    run-IsWithin two_limits a_day empty_ledger
      (alice-IsUnder, (alice-IsUnder, (alice-IsUnder, (alice-IsUnder, tt)))) empty-IsWithin

charge_daily_bytes_usage_example :
    ((get_daily_usage "hash:key" 0 (charge_daily_bytes alice 400 2_000 empty_ledger).1).bytes_today
      ≡ (get_daily_usage "hash:key" 0 empty_ledger).bytes_today
        + (if is_allowed (charge_daily_bytes alice 400 2_000 empty_ledger).0
              && (str_eq alice.owner "hash:key" && today 2_000 == 0)
            then 400
            else 0))
    × ((get_daily_usage "hash:key" 0
          (charge_daily_bytes alice 400 2_000 empty_ledger).1).receipts_today
        ≡ (get_daily_usage "hash:key" 0 empty_ledger).receipts_today)
charge_daily_bytes_usage_example =
    charge_daily_bytes_usage alice 400 2_000 empty_ledger "hash:key" 0

abbrev busy_ledger : Ledger
busy_ledger = record {
  daily = [];
  inflight =
      record {
        upload_id = "c1";
        owner = "hash:key";
        started_at = 1_000;
        bytes = 0;
        status = active;
      }
      ∷ [];
}

bob_starts :
    is_allowed (start_upload (of_account account_config "5Bob") "c1" 2_000 busy_ledger).0 ≡ true
unfolding start_upload clean_stale_inflight
bob_starts = refl

-- The account takes the upload id over from the key.
start_upload_takes_example :
    holds "c1" "hash:key" (start_upload (of_account account_config "5Bob") "c1" 2_000 busy_ledger).1
    ≡ (if str_eq "5Bob" "hash:key" then 1 else 0)
start_upload_takes_example =
    start_upload_takes (of_account account_config "5Bob") "c1" 2_000 busy_ledger "hash:key"
      bob_starts

abbrev sig_a : Text
sig_a = codes "aa"

abbrev sig_b : Text
sig_b = codes "bb"

first_claim : (claim_upload_signatures (sig_a ∷ sig_b ∷ []) 100 50 []).0 ≡ true
unfolding claim_upload_signatures unique
first_claim = refl

claim_once_example :
    (claim_upload_signatures (sig_b ∷ []) 160 90 (
      claims
        (record { sigs = codes "cc" ∷ []; expires = 150; now = 60 } ∷ [])
        (claim_upload_signatures (sig_a ∷ sig_b ∷ []) 100 50 []).1)).0
    ≡ false
claim_once_example =
    claim_once (sig_a ∷ sig_b ∷ []) 100 50 []
      (record { sigs = codes "cc" ∷ []; expires = 150; now = 60 } ∷ []) sig_b (sig_b ∷ []) 160 90
      first_claim (omega arith, tt) (omega arith) refl refl
