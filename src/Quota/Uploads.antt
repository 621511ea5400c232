-- ===== src/Quota/Uploads.antt =====
-- The upload quotas of src/quota.ts: concurrency slots, bytes a day and receipts a day. The
-- functions for API keys and those for accounts run the same statements, over two pairs of tables
-- and with the limits from the key's row or from the configuration.
pub mod Usage
pub mod Slots
pub mod Run
use materios_gateway.Prelude.{
  ℕ, ◌+◌, ◌-◌, String, str_eq, Bool, ◌&&◌, Option, none, some, List, ltb, leb, ◌==◌, if◌then◌else◌,
}
use materios_gateway.Sql.{get, count, delete, update, insert_or_ignore, insert_or_replace}
use materios_gateway.Quota.Tables.{
  DailyRow, InflightRow, active, complete, is_active, Ledger, QuotaDb, KeyInfo, QuotaCheckResult,
  allowed, denied, concurrent_uploads, daily_bytes, daily_receipts, is_allowed, today,
}

-- Who uploads, under which limits, and the `keyInfo` of the reply.
pub record Uploader : Type 0 where
  pub owner : String
  pub max_receipts : ℕ
  pub max_bytes : ℕ
  pub max_concurrent : ℕ
  pub key_info : Option KeyInfo

abbrev pub of_key : KeyInfo → Uploader
of_key k = record {
  owner = k.key_hash;
  max_receipts = k.max_receipts_per_day;
  max_bytes = k.max_bytes_per_day;
  max_concurrent = k.max_concurrent_uploads;
  key_info = some k;
}

-- `WHERE key_hash = ? AND status = 'active'`
abbrev pub active_of : String → InflightRow → Bool
active_of o r = str_eq r.owner o && is_active r.status

-- `WHERE upload_id = ? AND key_hash = ?`
abbrev pub upload_of : String → String → InflightRow → Bool
upload_of hash o r = str_eq r.upload_id hash && str_eq r.owner o

-- `WHERE key_hash = ? AND day = ?`, the primary key of the daily table
abbrev pub on_day : String → ℕ → DailyRow → Bool
on_day o d r = str_eq r.owner o && r.day == d

-- ten minutes
abbrev pub stale_after : ℕ
stale_after = 600_000

unfoldable pub clean_stale_inflight : String → ℕ → List InflightRow → List InflightRow
clean_stale_inflight o now =
    delete (λ r. str_eq r.owner o && (ltb r.started_at (now - stale_after) && is_active r.status))

unfoldable pub start_upload : Uploader → String → ℕ → Ledger → QuotaCheckResult × Ledger
start_upload u hash now l =
    let cleaned = clean_stale_inflight u.owner now l.inflight in
    let cnt = count (active_of u.owner) cleaned in
    if leb u.max_concurrent cnt
    then (denied concurrent_uploads u.max_concurrent cnt, record l { inflight = cleaned })
    else (
      allowed u.key_info,
      record l {
        inflight =
            insert_or_replace (λ r. str_eq r.upload_id hash)
              (record {
                upload_id = hash;
                owner = u.owner;
                started_at = now;
                bytes = 0;
                status = active;
              })
              cleaned;
      },
    )

-- A counter of a row that a `SELECT` may miss. Behind the insert that comes before the read there
-- is a row.
abbrev pub counter_in : (DailyRow → ℕ) → Option DailyRow → ℕ
counter_in counter none = 0
counter_in counter (some r) = counter r

abbrev pub bytes_in : Option DailyRow → ℕ
bytes_in = counter_in (λ r. r.bytes)

abbrev pub receipts_in : Option DailyRow → ℕ
receipts_in = counter_in (λ r. r.receipts)

abbrev pub add_bytes : ℕ → DailyRow → DailyRow
add_bytes n r = record r { bytes = r.bytes + n }

abbrev pub add_receipt : DailyRow → DailyRow
add_receipt r = record r { receipts = r.receipts + 1 }

abbrev pub fresh_day : String → ℕ → DailyRow
fresh_day o d = record { owner = o; day = d; receipts = 0; bytes = 0 }

unfoldable pub charge_daily_bytes : Uploader → ℕ → ℕ → Ledger → QuotaCheckResult × Ledger
charge_daily_bytes u bytes now l =
    let at_day = on_day u.owner (today now) in
    let daily = insert_or_ignore at_day (fresh_day u.owner (today now)) l.daily in
    let current = bytes_in (get at_day daily) in
    if ltb u.max_bytes (current + bytes)
    then (denied daily_bytes u.max_bytes current, record l { daily = daily })
    else (allowed u.key_info, record l { daily = update at_day (add_bytes bytes) daily })

-- the bytes and the new start time that a chunk writes into its upload
abbrev pub touch : ℕ → ℕ → InflightRow → InflightRow
touch bytes now r = record r { bytes = r.bytes + bytes; started_at = now }

unfoldable pub record_chunk_bytes : Uploader → String → ℕ → ℕ → Ledger → QuotaCheckResult × Ledger
record_chunk_bytes u hash bytes now l =
    let (charged, l') = charge_daily_bytes u bytes now l in
    if is_allowed charged
    then (
      charged,
      record l' { inflight = update (upload_of hash u.owner) (touch bytes now) l'.inflight },
    )
    else (charged, l')

unfoldable pub charge_manifest_bytes : Uploader → ℕ → ℕ → Ledger → QuotaCheckResult × Ledger
charge_manifest_bytes u bytes now l = charge_daily_bytes u bytes now l

-- `SET status = 'complete'`
abbrev pub finish : InflightRow → InflightRow
finish r = record r { status = complete }

unfoldable pub finalize_upload : Uploader → String → ℕ → Ledger → QuotaCheckResult × Ledger
finalize_upload u hash now l =
    let at_day = on_day u.owner (today now) in
    let daily = insert_or_ignore at_day (fresh_day u.owner (today now)) l.daily in
    let inflight = update (upload_of hash u.owner) finish l.inflight in
    let current = receipts_in (get at_day daily) in
    if leb u.max_receipts current
    then (
      denied daily_receipts u.max_receipts current,
      record { daily = daily; inflight = inflight },
    )
    else (
      allowed u.key_info,
      record { daily = update at_day add_receipt daily; inflight = inflight },
    )

-- `getDailyUsage`: a missing row reads as zero
pub record DailyUsage : Type 0 where
  pub receipts_today : ℕ
  pub bytes_today : ℕ

unfoldable pub get_daily_usage : String → ℕ → Ledger → DailyUsage
get_daily_usage o d l = record {
  receipts_today = receipts_in (get (on_day o d) l.daily);
  bytes_today = bytes_in (get (on_day o d) l.daily);
}

-- The configuration's limits for signature-only uploaders.
pub record AccountConfig : Type 0 where
  pub sig_only_max_receipts_per_day : ℕ
  pub sig_only_max_bytes_per_day : ℕ
  pub sig_only_max_concurrent_uploads : ℕ

abbrev pub of_account : AccountConfig → String → Uploader
of_account c address = record {
  owner = address;
  max_receipts = c.sig_only_max_receipts_per_day;
  max_bytes = c.sig_only_max_bytes_per_day;
  max_concurrent = c.sig_only_max_concurrent_uploads;
  key_info = none;
}

abbrev on_keys : (Ledger → QuotaCheckResult × Ledger) → QuotaDb → QuotaCheckResult × QuotaDb
on_keys f db = let (c, l) = f db.keys in (c, record db { keys = l })

abbrev on_accounts : (Ledger → QuotaCheckResult × Ledger) → QuotaDb → QuotaCheckResult × QuotaDb
on_accounts f db = let (c, l) = f db.accounts in (c, record db { accounts = l })

unfoldable pub start_key_upload : KeyInfo → String → ℕ → QuotaDb → QuotaCheckResult × QuotaDb
start_key_upload k hash now = on_keys (start_upload (of_key k) hash now)

unfoldable pub record_key_chunk_bytes :
    KeyInfo → String → ℕ → ℕ → QuotaDb → QuotaCheckResult × QuotaDb
record_key_chunk_bytes k hash bytes now = on_keys (record_chunk_bytes (of_key k) hash bytes now)

unfoldable pub finalize_key_upload : KeyInfo → String → ℕ → QuotaDb → QuotaCheckResult × QuotaDb
finalize_key_upload k hash now = on_keys (finalize_upload (of_key k) hash now)

module _ (c : AccountConfig) where
  unfoldable pub start_account_upload : String → String → ℕ → QuotaDb → QuotaCheckResult × QuotaDb
  start_account_upload address hash now = on_accounts (start_upload (of_account c address) hash now)

  unfoldable pub record_account_chunk_bytes :
      String → String → ℕ → ℕ → QuotaDb → QuotaCheckResult × QuotaDb
  record_account_chunk_bytes address hash bytes now =
      on_accounts (record_chunk_bytes (of_account c address) hash bytes now)

  unfoldable pub charge_account_manifest_bytes :
      String → ℕ → ℕ → QuotaDb → QuotaCheckResult × QuotaDb
  charge_account_manifest_bytes address bytes now =
      on_accounts (charge_manifest_bytes (of_account c address) bytes now)

  unfoldable pub finalize_account_upload :
      String → String → ℕ → QuotaDb → QuotaCheckResult × QuotaDb
  finalize_account_upload address hash now =
      on_accounts (finalize_upload (of_account c address) hash now)
