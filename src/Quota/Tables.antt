-- ===== src/Quota/Tables.antt =====
-- The tables of quota.db (src/quota.ts) and what the functions over them return.
-- A table of daily counters or of uploads exists twice, for API keys and for accounts: `owner` is
-- the column `key_hash` in the one and `address` in the other. A time is a number of milliseconds;
-- the ISO texts that the code stores are ordered as the times are. A day is a number of days, for
-- the text YYYY-MM-DD.
use materios_gateway.Prelude.{ℕ, ◌/◌, String, Text, Bool, true, false, Option, List}

pub record ApiKey : Type 0 where
  pub key_hash : String
  pub name : String
  pub enabled : Bool
  pub max_receipts_per_day : ℕ
  pub max_bytes_per_day : ℕ
  pub max_concurrent_uploads : ℕ
  pub validator_id : Option String
  pub bound_validator_aura : Option String
  pub lifetime_receipts : ℕ
  pub lifetime_bytes : ℕ
  pub lifetime_matra_debited : ℕ
  pub last_used_at : Option ℕ

pub record DailyRow : Type 0 where
  pub owner : String
  pub day : ℕ
  pub receipts : ℕ
  pub bytes : ℕ

pub data Status : Type 0 where
  active complete : Status

abbrev pub is_active : Status → Bool
is_active active = true
is_active complete = false

pub record InflightRow : Type 0 where
  pub upload_id : String
  pub owner : String
  pub started_at : ℕ
  pub bytes : ℕ
  pub status : Status

-- The counters and the uploads of one kind of uploader.
pub record Ledger : Type 0 where
  pub daily : List DailyRow
  pub inflight : List InflightRow

pub record UsedSig : Type 0 where
  pub sig : Text
  pub expires_at : ℕ

pub record QuotaDb : Type 0 where
  pub api_keys : List ApiKey
  pub keys : Ledger
  pub accounts : Ledger
  pub used_upload_sigs : List UsedSig

pub record KeyInfo : Type 0 where
  pub key_hash : String
  pub name : String
  pub enabled : Bool
  pub max_receipts_per_day : ℕ
  pub max_bytes_per_day : ℕ
  pub max_concurrent_uploads : ℕ
  pub validator_id : Option String
  pub bound_validator_aura : Option String

pub data QuotaError : Type 0 where
  concurrent_uploads daily_bytes daily_receipts : QuotaError

-- `denied` carries the error, the limit and the current value.
pub data QuotaCheckResult : Type 0 where
  allowed : Option KeyInfo → QuotaCheckResult
  denied : QuotaError → ℕ → ℕ → QuotaCheckResult

abbrev pub is_allowed : QuotaCheckResult → Bool
is_allowed (allowed k) = true
is_allowed (denied e limit current) = false

-- `today()` at a time
abbrev pub today : ℕ → ℕ
today now = now / 86_400_000
