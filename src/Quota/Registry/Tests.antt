-- ===== src/Quota/Registry/Tests.antt =====
-- Runs of the registry's functions on concrete rows, and the theorems at such inputs.
use materios_gateway.Prelude.{
  ℕ, is_some, ◌≡◌, ◌≢◌, refl, String, str_eq, str_eq-false-ne, true, none, some, List, [], ◌∷◌, any,
  if◌then◌else◌, Bool-cases, inl, inr,
}
use materios_gateway.Quota.Tables.{ApiKey, Ledger, QuotaDb, KeyInfo}
use materios_gateway.Quota.Registry.{
  new_key, AuraBinding, KeyEntry, lookup_validator_info, resolve_key_by_account,
  get_api_key_by_hash, bind_validator_aura, clear_validator_aura_binding, get_binding_for_aura,
  record_usage, get_usage, ensure_faucet_api_key, resolve_key, load_legacy_key,
  retire_address_derived_api_keys,
}
use materios_gateway.Quota.Registry.Retire.{AllSecret, retire-AllSecret, resolve_key-ne_address}

abbrev registry_info : KeyInfo
registry_info = record {
  key_hash = "hash:key";
  name = "alice";
  enabled = true;
  max_receipts_per_day = 2;
  max_bytes_per_day = 1_000;
  max_concurrent_uploads = 1;
  validator_id = some "5Alice";
  bound_validator_aura = none;
}

abbrev empty_ledger : Ledger
empty_ledger = record { daily = []; inflight = [] }

abbrev registry_db : QuotaDb
registry_db = record {
  api_keys = [];
  keys = empty_ledger;
  accounts = empty_ledger;
  used_upload_sigs = [];
}

-- A digest of texts that tells one address from all others, and a hash that it never returns.
abbrev digest : String → String
digest v = if str_eq v "5Alice" then "hash:5Alice" else "hash:other"

abbrev drawn : ℕ → String
drawn n = "random"

drawn-ne_digest : (n : ℕ) (v : String) → drawn n ≢ digest v
drawn-ne_digest n v = elim (Bool-cases (str_eq v "5Alice")) [
  | inl e ↦ rw e (str_eq-false-ne "random" "hash:5Alice" refl)
  | inr e ↦ rw e (str_eq-false-ne "random" "hash:other" refl)
]

abbrev address_key : ApiKey
address_key = new_key "hash:5Alice" "alice" true 100 1_000 5 (some "5Alice") none

abbrev secret_key : ApiKey
secret_key = new_key "hash:key" "alice" true 100 1_000 5 (some "5Alice") (some "aura")

abbrev address_db : QuotaDb
address_db = record registry_db { api_keys = address_key ∷ secret_key ∷ [] }

retired :
    (retire_address_derived_api_keys digest drawn address_db).0 ≡ (some "5Alice", "alice") ∷ []
unfolding retire_address_derived_api_keys
retired = refl

retire-AllSecret_example :
    AllSecret digest (retire_address_derived_api_keys digest drawn address_db).1.api_keys
retire-AllSecret_example = retire-AllSecret digest drawn drawn-ne_digest address_db

-- The key that bob presents as an address is alice's.
abbrev odd_key : ApiKey
odd_key = new_key "hash:other" "odd" true 100 1_000 5 (some "5Alice") none

odd_resolves :
    resolve_key digest "5Bob" (odd_key ∷ []) ≡ get_api_key_by_hash "hash:other" (odd_key ∷ [])
unfolding resolve_key get_api_key_by_hash
odd_resolves = refl

abbrev odd_info : KeyInfo
odd_info = record registry_info {
  key_hash = "hash:other";
  name = "odd";
  max_receipts_per_day = 100;
  max_concurrent_uploads = 5;
}

odd_found : resolve_key digest "5Bob" (odd_key ∷ []) ≡ some odd_info
unfolding resolve_key
odd_found = refl

resolve_key-ne_address_example : odd_info.validator_id ≢ some "5Bob"
resolve_key-ne_address_example =
    resolve_key-ne_address digest "5Bob" (odd_key ∷ []) odd_info (refl, tt)
      (str_eq-false-ne "5Bob" "" refl) odd_found

abbrev file_entry : String → KeyEntry
file_entry h = record {
  key_hash = h;
  name = "from-file";
  enabled = none;
  max_receipts_per_day = some 7;
  max_bytes_per_day = none;
  max_concurrent_uploads = none;
  validator_id = some "5Alice";
  bound_validator_aura = none;
}

legacy_loaded : any (λ k. str_eq k.name "legacy-default") (load_legacy_key digest "top" []) ≡ true
unfolding load_legacy_key
legacy_loaded = refl

abbrev faucet_keys : List ApiKey
faucet_keys = new_key "random" "faucet-attestor" true 100 1_073_741_824 5 (some "5Alice") none ∷ []

faucet_added : ensure_faucet_api_key "5Alice" "random" [] ≡ some faucet_keys
unfolding ensure_faucet_api_key
faucet_added = refl

abbrev heartbeat_key : ApiKey
heartbeat_key = new_key "heartbeat-only:5Alice" "hb" true 0 0 0 (some "5Alice") none

-- A heartbeat-only row is a validator, and the row of its account, but may not upload.
heartbeat_known : lookup_validator_info "5Alice" (heartbeat_key ∷ []) ≡ some "hb"
unfolding lookup_validator_info
heartbeat_known = refl

heartbeat_account :
    resolve_key_by_account "5Alice" (heartbeat_key ∷ [])
    ≡ get_api_key_by_hash "heartbeat-only:5Alice" (heartbeat_key ∷ [])
unfolding resolve_key_by_account get_api_key_by_hash
heartbeat_account = refl

bound_twice :
    get_binding_for_aura "aura2" (bind_validator_aura "hash:key" "aura2" (secret_key ∷ [])).1
    ≡ some (record { key_hash = "hash:key"; name = "alice"; cert_daemon_ss58 = some "5Alice" })
unfolding get_binding_for_aura bind_validator_aura
bound_twice = refl

bound_cleared :
    get_binding_for_aura "aura" (clear_validator_aura_binding "hash:key" (secret_key ∷ [])).1 ≡ none
unfolding get_binding_for_aura clear_validator_aura_binding
bound_cleared = refl

abbrev alice_binding : AuraBinding
alice_binding = record { key_hash = "hash:key"; name = "alice"; cert_daemon_ss58 = some "5Alice" }

alice_bound : get_binding_for_aura "aura" (secret_key ∷ []) ≡ some alice_binding
unfolding get_binding_for_aura
alice_bound = refl

usage_counted :
    is_some (get_usage "hash:key" (record_usage "hash:key" 10 true 5 (secret_key ∷ []))) ≡ true
unfolding get_usage record_usage
usage_counted = refl
