-- ===== src/Quota/Registry/Faucet.antt =====
-- Laws of `ensureFaucetApiKey` (src/quota.ts).
use materios_gateway.Prelude.{
  ◌≡◌, refl, String, eq_refl, codes, like_prefix, Bool, true, false, not, ◌&&◌, none, some, List,
  [], ◌∷◌, ◌++◌, arith, any, any-append, Bool-cases, inl, inr,
}
use materios_gateway.Sql.{get}
use materios_gateway.Sql.Laws.{get-append_none}
use materios_gateway.Quota.Tables.{ApiKey}
use materios_gateway.Quota.Registry.{
  has_hash, equals, is_heartbeat_only, new_key, ensure_faucet_api_key,
  lookup_upload_eligible_validator,
}

-- A row of the validator that is not heartbeat-only, enabled or not.
abbrev pub is_registered : String → ApiKey → Bool
is_registered v k = equals k.validator_id v && not (is_heartbeat_only k)

abbrev pub faucet_row : String → String → ApiKey
faucet_row v h = new_key h "faucet-attestor" true 100 1_073_741_824 5 (some v) none

faucet_row-registered :
    (v h : String)
    → like_prefix (codes "heartbeat-only:") (codes h) ≡ false
    → is_registered v (faucet_row v h) ≡ true
faucet_row-registered v h fresh = rw (eq_refl v, fresh) refl

-- A registration that raises no error leaves the validator registered.
ensure-registers :
    (v h : String) (keys keys' : List ApiKey)
    → like_prefix (codes "heartbeat-only:") (codes h) ≡ false
    → ensure_faucet_api_key v h keys ≡ some keys'
    → any (is_registered v) keys' ≡ true
unfolding ensure_faucet_api_key
ensure-registers v h keys keys' fresh e = elim (Bool-cases (any (is_registered v) keys)) [
  | inl old ↦ let same : keys ≡ keys' = ground arith in rw (← same) old
  | inr new ↦ elim (Bool-cases (any (has_hash h) keys)) [
    | inl clash ↦ absurd (ground arith)
    | inr free ↦
        let same : keys ++ faucet_row v h ∷ [] ≡ keys' = ground arith in
        rw
          (
            ← same,
            any-append (is_registered v) keys (faucet_row v h ∷ []),
            new,
            faucet_row-registered v h fresh,
          )
          refl
  ]
]

-- After a registration that raises no error, under a key hash that is not heartbeat-only, registering
-- again with whatever key hash changes nothing: a validator that drips twice has one faucet row.
ensure_faucet_again :
    (v h h' : String) (keys keys' : List ApiKey)
    → like_prefix (codes "heartbeat-only:") (codes h) ≡ false
    → ensure_faucet_api_key v h keys ≡ some keys'
    → ensure_faucet_api_key v h' keys' ≡ some keys'
ensure_faucet_again v h h' keys keys' fresh e =
    let known = ensure-registers v h keys keys' fresh e in unfold ensure_faucet_api_key in rw known

none_registered :
    (v : String) (keys : List ApiKey)
    → any (is_registered v) keys ≡ false
    → get (λ k. equals k.validator_id v && (k.enabled && not (is_heartbeat_only k))) keys ≡ none
none_registered v [] h = refl
none_registered v (k ∷ keys) h = ground (arith, none_registered v keys)

-- A validator with no row, or with heartbeat-only rows alone, may not upload, and may upload as
-- `faucet-attestor` once it is registered under a key hash that has no row and is not
-- heartbeat-only itself.
ensure_faucet_makes_eligible :
    (v h : String) (keys : List ApiKey)
    → like_prefix (codes "heartbeat-only:") (codes h) ≡ false
    → any (is_registered v) keys ≡ false
    → any (has_hash h) keys ≡ false
    → (lookup_upload_eligible_validator v keys ≡ none)
      × ((keys' : List ApiKey) × (ensure_faucet_api_key v h keys ≡ some keys')
          × (lookup_upload_eligible_validator v keys' ≡ some "faucet-attestor"))
unfolding ensure_faucet_api_key lookup_upload_eligible_validator
ensure_faucet_makes_eligible v h keys fresh new free =
    let missing = none_registered v keys new in
    (
      rw missing,
      (
        keys ++ faucet_row v h ∷ [],
        rw (new, free),
        rw (get-append_none _ keys (faucet_row v h ∷ []) missing, eq_refl v, fresh),
      ),
    )
