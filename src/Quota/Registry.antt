-- ===== src/Quota/Registry.antt =====
-- The registry of API keys in quota.db (src/quota.ts): loading, lookup, the retirement of keys that
-- are public addresses, faucet registration, aura bindings and lifetime usage. `sha256_hex` is the
-- platform's SHA-256 of a text, in hex.
pub mod Retire
pub mod Faucet
pub mod Bindings
mod Tests
use materios_gateway.Prelude.{
  ℕ, suc, ◌+◌, String, str_eq, codes, like_prefix, text_leb, Bool, true, false, not, ◌&&◌, Option,
  none, some, List, [], ◌∷◌, ◌++◌, map, any, is_some, if◌then◌else◌,
}
use materios_gateway.Sql.{select, get, count, update, upsert, order_by, head?}
use materios_gateway.Quota.Tables.{ApiKey, DailyRow, InflightRow, Ledger, QuotaDb, KeyInfo}

-- `key_hash = ?`
abbrev pub has_hash : String → ApiKey → Bool
has_hash h k = str_eq k.key_hash h

-- `o = ?`, which a NULL never is
abbrev pub equals : Option String → String → Bool
equals none s = false
equals (some t) s = str_eq t s

abbrev pub key_info : ApiKey → KeyInfo
key_info k = record {
  key_hash = k.key_hash;
  name = k.name;
  enabled = k.enabled;
  max_receipts_per_day = k.max_receipts_per_day;
  max_bytes_per_day = k.max_bytes_per_day;
  max_concurrent_uploads = k.max_concurrent_uploads;
  validator_id = k.validator_id;
  bound_validator_aura = k.bound_validator_aura;
}

-- `key_hash LIKE 'heartbeat-only:%'`
abbrev pub is_heartbeat_only : ApiKey → Bool
is_heartbeat_only k = like_prefix (codes "heartbeat-only:") (codes k.key_hash)

abbrev pub enabled_only : Option ApiKey → Option KeyInfo
enabled_only none = none
enabled_only (some k) = if k.enabled then some (key_info k) else none

abbrev pub name_of : Option ApiKey → Option String
name_of none = none
name_of (some k) = some k.name

pub lookup_validator_info : String → List ApiKey → Option String
lookup_validator_info v keys = name_of (get (λ k. equals k.validator_id v && k.enabled) keys)

unfoldable pub lookup_upload_eligible_validator : String → List ApiKey → Option String
lookup_upload_eligible_validator v keys =
    name_of (get (λ k. equals k.validator_id v && (k.enabled && not (is_heartbeat_only k))) keys)

pub resolve_key_by_account : String → List ApiKey → Option KeyInfo
resolve_key_by_account ss58 keys =
    enabled_only (get (λ k. equals k.validator_id ss58 && k.enabled) keys)

pub get_api_key_by_hash : String → List ApiKey → Option KeyInfo
get_api_key_by_hash h keys = elim (get (has_hash h) keys) [
  | none ↦ none
  | some k ↦ some (key_info k)
]

-- The result says whether a row was changed.
pub bind_validator_aura : String → String → List ApiKey → Bool × List ApiKey
bind_validator_aura h aura keys = (
  any (has_hash h) keys,
  update (has_hash h) (λ k. record k { bound_validator_aura = some aura }) keys,
)

pub clear_validator_aura_binding : String → List ApiKey → Bool × List ApiKey
clear_validator_aura_binding h keys = (
  any (has_hash h) keys,
  update (has_hash h) (λ k. record k { bound_validator_aura = none }) keys,
)

pub record AuraBinding : Type 0 where
  pub key_hash : String
  pub name : String
  pub cert_daemon_ss58 : Option String

abbrev pub to_binding : Option ApiKey → Option AuraBinding
to_binding none = none
to_binding (some k) =
    some (record { key_hash = k.key_hash; name = k.name; cert_daemon_ss58 = k.validator_id })

-- `ORDER BY key_hash ASC`
abbrev pub by_hash : ApiKey → ApiKey → Bool
by_hash a b = text_leb a.key_hash b.key_hash

abbrev pub bound_to : String → ApiKey → Bool
bound_to aura k = equals k.bound_validator_aura aura && k.enabled

pub get_binding_for_aura : String → List ApiKey → Option AuraBinding
get_binding_for_aura aura keys = to_binding (head? (order_by by_hash (select (bound_to aura) keys)))

-- `recordUsage` for a byte count that is a whole number.
pub record_usage : String → ℕ → Bool → ℕ → List ApiKey → List ApiKey
record_usage h bytes receipt now = update (has_hash h) (λ k. record k {
  lifetime_receipts = k.lifetime_receipts + (if receipt then 1 else 0);
  lifetime_bytes = k.lifetime_bytes + bytes;
  last_used_at = some now;
})

pub record UsageSnapshot : Type 0 where
  pub lifetime_receipts : ℕ
  pub lifetime_bytes : ℕ
  pub lifetime_matra_debited : ℕ
  pub last_used_at : Option ℕ
  pub max_receipts_per_day : ℕ
  pub max_bytes_per_day : ℕ

pub get_usage : String → List ApiKey → Option UsageSnapshot
get_usage h keys = elim (get (has_hash h) keys) [
  | none ↦ none
  | some k ↦ some (record {
    lifetime_receipts = k.lifetime_receipts;
    lifetime_bytes = k.lifetime_bytes;
    lifetime_matra_debited = k.lifetime_matra_debited;
    last_used_at = k.last_used_at;
    max_receipts_per_day = k.max_receipts_per_day;
    max_bytes_per_day = k.max_bytes_per_day;
  })
]

-- A row with the columns that an `INSERT` names, and the defaults of the others.
abbrev pub new_key : String → String → Bool → ℕ → ℕ → ℕ → Option String → Option String → ApiKey
new_key hash label enabled receipts bytes concurrent validator aura = record {
  key_hash = hash;
  name = label;
  enabled = enabled;
  max_receipts_per_day = receipts;
  max_bytes_per_day = bytes;
  max_concurrent_uploads = concurrent;
  validator_id = validator;
  bound_validator_aura = aura;
  lifetime_receipts = 0;
  lifetime_bytes = 0;
  lifetime_matra_debited = 0;
  last_used_at = none;
}

-- `none` is the error that SQLite raises where the key hash has a row.
pub ensure_faucet_api_key : String → String → List ApiKey → Option (List ApiKey)
ensure_faucet_api_key v h keys =
    if any (λ k. equals k.validator_id v && not (is_heartbeat_only k)) keys
    then some keys
    else if any (has_hash h) keys
    then none
    else some (keys ++ new_key h "faucet-attestor" true 100 1_073_741_824 5 (some v) none ∷ [])

-- An entry of keys.json.
pub record KeyEntry : Type 0 where
  pub key_hash : String
  pub name : String
  pub enabled : Option Bool
  pub max_receipts_per_day : Option ℕ
  pub max_bytes_per_day : Option ℕ
  pub max_concurrent_uploads : Option ℕ
  pub validator_id : Option String
  pub bound_validator_aura : Option String

-- `o ?? d`
abbrev pub or_else {ℓ} : {A : Type ℓ} → Option A → A → A
or_else none d = d
or_else (some a) d = a

-- `COALESCE(a, b)`
abbrev pub coalesce {ℓ} : {A : Type ℓ} → Option A → Option A → Option A
coalesce none b = b
coalesce (some a) b = some a

abbrev pub entry_row : KeyEntry → ApiKey
entry_row e =
    new_key e.key_hash e.name (or_else e.enabled true) (or_else e.max_receipts_per_day 100)
      (or_else e.max_bytes_per_day 1_073_741_824) (or_else e.max_concurrent_uploads 5)
      e.validator_id e.bound_validator_aura

abbrev pub on_conflict : ApiKey → ApiKey → ApiKey
on_conflict excluded k = record k {
  name = excluded.name;
  enabled = excluded.enabled;
  max_receipts_per_day = excluded.max_receipts_per_day;
  max_bytes_per_day = excluded.max_bytes_per_day;
  max_concurrent_uploads = excluded.max_concurrent_uploads;
  validator_id = excluded.validator_id;
  bound_validator_aura = coalesce excluded.bound_validator_aura k.bound_validator_aura;
}

abbrev upsert_entry : KeyEntry → List ApiKey → List ApiKey
upsert_entry e = upsert (has_hash e.key_hash) (entry_row e) (on_conflict (entry_row e))

abbrev upsert_many : List KeyEntry → List ApiKey → List ApiKey
upsert_many [] keys = keys
upsert_many (e ∷ es) keys = upsert_many es (upsert_entry e keys)

abbrev rekey_daily : String → String → List DailyRow → List DailyRow
rekey_daily old new = update (λ r. str_eq r.owner old) (λ r. record r { owner = new })

abbrev rekey_inflight : String → String → List InflightRow → List InflightRow
rekey_inflight old new = update (λ r. str_eq r.owner old) (λ r. record r { owner = new })

-- the three `UPDATE … SET key_hash = ? WHERE key_hash = ?`
pub rekey : String → String → QuotaDb → QuotaDb
rekey old new db = record db {
  api_keys = update (has_hash old) (λ k. record k { key_hash = new }) db.api_keys;
  keys = record {
    daily = rekey_daily old new db.keys.daily;
    inflight = rekey_inflight old new db.keys.inflight;
  };
}

-- The n-th unguessable hash that is drawn is `fresh n`.
pub rekey_all : (ℕ → String) → ℕ → List ApiKey → QuotaDb → QuotaDb
rekey_all fresh n [] db = db
rekey_all fresh n (k ∷ ks) db = rekey_all fresh (suc n) ks (rekey k.key_hash (fresh n) db)

module _ (sha256_hex : String → String) where
  -- `isAddressDerived`; an empty validator id is no address
  abbrev pub is_address_derived : String → Option String → Bool
  is_address_derived h none = false
  is_address_derived h (some v) = not (str_eq v "") && str_eq h (sha256_hex v)

  abbrev pub derived : ApiKey → Bool
  derived k = is_address_derived k.key_hash k.validator_id

  pub resolve_key : String → List ApiKey → Option KeyInfo
  resolve_key plaintext keys = enabled_only (get (has_hash (sha256_hex plaintext)) keys)

  -- keys.json is there and can be read; its entries
  pub load_keys : List KeyEntry → List ApiKey → List ApiKey
  load_keys entries =
      upsert_many (select (λ e. not (is_address_derived e.key_hash e.validator_id)) entries)

  -- there is no keys.json: the key of the configuration
  pub load_legacy_key : String → List ApiKey → List ApiKey
  load_legacy_key api_key keys =
      if any (has_hash (sha256_hex api_key)) keys
      then keys
      else keys
        ++ new_key (sha256_hex api_key) "legacy-default" true 100 1_073_741_824 5 none none ∷ []

  pub retire_address_derived_api_keys :
      (ℕ → String) → QuotaDb → List (Option String × String) × QuotaDb
  retire_address_derived_api_keys fresh db =
      let guessable = select derived db.api_keys in
      (map (λ k. (k.validator_id, k.name)) guessable, rekey_all fresh 0 guessable db)
