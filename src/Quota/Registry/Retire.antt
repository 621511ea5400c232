-- ===== src/Quota/Registry/Retire.antt =====
-- Laws of `retireAddressDerivedApiKeys`, `resolveKey` and `loadKeys` (src/quota.ts).
use mathlib.Core.Path.{subst}
use materios_gateway.Prelude.{
  ℕ, suc, ◌≡◌, ◌≢◌, refl, sym, String, eq_iff, eq_refl, str_eq-ne, true, false, not, Option, none,
  some, List, [], ◌∷◌, arith, any, All, All-append, Bool-cases, Option-cases, inl, inr,
}
use materios_gateway.Sql.{select, get, update}
use materios_gateway.Sql.Laws.{All-get, All-update, get_sound}
use materios_gateway.Quota.Tables.{ApiKey, QuotaDb, KeyInfo}
use materios_gateway.Quota.Registry.{
  has_hash, KeyEntry, upsert_many, upsert_entry, entry_row, on_conflict, is_address_derived,
  derived, resolve_key, load_keys, rekey, rekey_all, retire_address_derived_api_keys,
}

module _ (sha256_hex : String → String) where
  abbrev IsSecret : ApiKey → Type 0
  IsSecret k = derived sha256_hex k ≡ false

  -- Every key of the registry is a secret: none is the hash of its own validator's address.
  abbrev pub AllSecret : List ApiKey → Type 0
  AllSecret keys = All IsSecret keys

  -- A row is a secret, or one of the listed rows has its hash.
  abbrev IsListed : List ApiKey → ApiKey → Type 0
  IsListed ks k = derived sha256_hex k ≡ true → any (has_hash k.key_hash) ks ≡ true

  IsListed-cons :
      (x : ApiKey) (ks keys : List ApiKey) → All (IsListed ks) keys → All (IsListed (x ∷ ks)) keys
  IsListed-cons x ks [] h = tt
  IsListed-cons x ks (k ∷ keys) (first, rest) =
      ((λ d. ground (arith, first d)), IsListed-cons x ks keys rest)

  IsListed-select : (keys : List ApiKey) → All (IsListed (select (derived sha256_hex) keys)) keys
  IsListed-select [] = tt
  IsListed-select (k ∷ keys) = elim (Bool-cases (derived sha256_hex k)) [
    | inl d ↦
        let taken : select (derived sha256_hex) (k ∷ keys) ≡ k ∷ select (derived sha256_hex) keys =
          rw d in
        subst (λ ks. All (IsListed ks) (k ∷ keys)) (sym taken)
          (
            (λ _. rw (eq_refl k.key_hash)),
            IsListed-cons k (select (derived sha256_hex) keys) keys (IsListed-select keys),
          )
    | inr s ↦
        let passed : select (derived sha256_hex) (k ∷ keys) ≡ select (derived sha256_hex) keys =
          rw s in
        subst (λ ks. All (IsListed ks) (k ∷ keys)) (sym passed)
          ((λ d. absurd (cc (d, s))), IsListed-select keys)
  ]

  module _ (fresh : ℕ → String) (unguessable : (n : ℕ) (v : String) → fresh n ≢ sha256_hex v) where
    fresh-IsSecret : (n : ℕ) (k : ApiKey) → IsSecret (record k { key_hash = fresh n })
    fresh-IsSecret n k = go k.validator_id
      where
        go : (v : Option String) → is_address_derived sha256_hex (fresh n) v ≡ false
        go none = refl
        go (some v) = rw (str_eq-ne (fresh n) (sha256_hex v) (unguessable n v)) (ground arith)

    rekey-IsListed :
        (n : ℕ) (x : ApiKey) (ks keys : List ApiKey)
        → All (IsListed (x ∷ ks)) keys
        → All
            (IsListed ks)
            (update (has_hash x.key_hash) (λ k. record k { key_hash = fresh n }) keys)
    rekey-IsListed n x ks [] h = tt
    rekey-IsListed n x ks (k ∷ keys) (first, rest) = elim (Bool-cases (has_hash x.key_hash k)) [
      | inl hit ↦
          rw hit ((λ d. absurd (cc (d, fresh-IsSecret n k))), rekey-IsListed n x ks keys rest)
      | inr miss ↦ rw miss (
        (λ d. ground (arith, first d, eq_iff k.key_hash x.key_hash, eq_iff x.key_hash k.key_hash)),
        rekey-IsListed n x ks keys rest,
      )
    ]

    rekey_all-AllSecret :
        (n : ℕ) (ks : List ApiKey) (db : QuotaDb)
        → All (IsListed ks) db.api_keys
        → AllSecret (rekey_all fresh n ks db).api_keys
    unfolding rekey_all rekey
    rekey_all-AllSecret n [] db h = none_listed db.api_keys h
      where
        none_listed : (keys : List ApiKey) → All (IsListed []) keys → AllSecret keys
        none_listed [] h = tt
        none_listed (k ∷ keys) (first, rest) = elim (Bool-cases (derived sha256_hex k)) [
          | inl d ↦ absurd (cc (first d))
          | inr s ↦ (s, none_listed keys rest)
        ]
    rekey_all-AllSecret n (k ∷ ks) db h =
        rekey_all-AllSecret (suc n) ks (rekey k.key_hash (fresh n) db)
          (rekey-IsListed n k ks db.api_keys h)

    -- After the retirement no row of the registry is keyed by its validator's address, if no drawn
    -- hash is the hash of a text.
    pub retire-AllSecret :
        (db : QuotaDb) → AllSecret (retire_address_derived_api_keys sha256_hex fresh db).1.api_keys
    unfolding retire_address_derived_api_keys
    retire-AllSecret db =
        rekey_all-AllSecret 0 (select (derived sha256_hex) db.api_keys) db
          (IsListed-select db.api_keys)

    select-AllSecret : (keys : List ApiKey) → AllSecret keys → select (derived sha256_hex) keys ≡ []
    select-AllSecret [] h = refl
    select-AllSecret (k ∷ keys) (first, rest) = rw first (select-AllSecret keys rest)

    -- A second retirement, at the next start, finds no key to replace and leaves the tables alone,
    -- if no drawn hash is the hash of a text.
    retire_again :
        (db : QuotaDb)
        → let db' = (retire_address_derived_api_keys sha256_hex fresh db).1 in
          retire_address_derived_api_keys sha256_hex fresh db' ≡ ([], db')
    retire_again db = go _ (retire-AllSecret db)
      where
        go :
            (db' : QuotaDb)
            → AllSecret db'.api_keys
            → retire_address_derived_api_keys sha256_hex fresh db' ≡ ([], db')
        go db' h =
            unfold retire_address_derived_api_keys rekey_all in rw (select-AllSecret db'.api_keys h)

  row-ne-address :
      (v : String) (k : ApiKey)
      → IsSecret k
      → v ≢ ""
      → has_hash (sha256_hex v) k ≡ true
      → k.validator_id ≢ some v
  row-ne-address v k secret filled hit same =
      let d : derived sha256_hex k ≡ true = rw same (rw (hit, str_eq-ne v "" filled)) in
      cc (d, secret)

  -- Where every key is a secret, presenting an address as an API key never resolves to the row of
  -- the validator with that address.
  pub resolve_key-ne_address :
      (v : String) (keys : List ApiKey) (info : KeyInfo)
      → AllSecret keys
      → v ≢ ""
      → resolve_key sha256_hex v keys ≡ some info
      → info.validator_id ≢ some v
  unfolding resolve_key
  resolve_key-ne_address v keys info secret filled e =
      elim (Option-cases (get (has_hash (sha256_hex v)) keys)) [
        | inl missing ↦ absurd (ground arith)
        | inr (k, found) ↦
            let same : info.validator_id ≡ k.validator_id = ground arith in
            rw same (
              row-ne-address v k (All-get IsSecret (has_hash (sha256_hex v)) keys secret found)
                filled (get_sound (has_hash (sha256_hex v)) keys found))
      ]

  upsert_entry-AllSecret :
      (e : KeyEntry) (keys : List ApiKey)
      → is_address_derived sha256_hex e.key_hash e.validator_id ≡ false
      → AllSecret keys
      → AllSecret (upsert_entry e keys)
  upsert_entry-AllSecret e keys ok h = elim (Bool-cases (any (has_hash e.key_hash) keys)) [
    | inl old ↦ rw old (
        All-update IsSecret (has_hash e.key_hash) (on_conflict (entry_row e)) keys
          (λ k hit _. let same : k.key_hash ≡ e.key_hash = (eq_iff _ _).0 hit in rw same ok) h)
    | inr new ↦ rw new (All-append IsSecret keys (entry_row e ∷ []) h (ok, tt))
  ]

  upsert_many-AllSecret :
      (entries : List KeyEntry) (keys : List ApiKey)
      → AllSecret keys
      → AllSecret (
          upsert_many
            (select (λ e. not (is_address_derived sha256_hex e.key_hash e.validator_id)) entries)
            keys)
  upsert_many-AllSecret [] keys h = h
  upsert_many-AllSecret (e ∷ es) keys h =
      elim (Bool-cases (is_address_derived sha256_hex e.key_hash e.validator_id)) [
        | inl skipped ↦ rw skipped (upsert_many-AllSecret es keys h)
        | inr kept ↦
            rw kept (
              upsert_many-AllSecret es (upsert_entry e keys) (upsert_entry-AllSecret e keys kept h))
      ]

  -- Loading keys.json over a registry of secrets keeps it one, whatever the file lists.
  load_keys-AllSecret :
      (entries : List KeyEntry) (keys : List ApiKey)
      → AllSecret keys
      → AllSecret (load_keys sha256_hex entries keys)
  unfolding load_keys
  load_keys-AllSecret entries keys h = upsert_many-AllSecret entries keys h
