-- ===== src/Auth/Resolve/Laws.antt =====
-- Laws of `resolveAuth` (src/auth.ts) and of the admin guard (src/bearer-auth.ts).
use mathlib.Core.Path.{subst}
use materios_gateway.Prelude.{
  ℕ, ◌≡◌, ◌≢◌, ◌↔◌, refl, sym, ap, ◌∙◌, ◌⊎◌, String, Text, text_eq_iff, Bool, true, false, not,
  ◌||◌, Option, none, some, List, [], ◌∷◌, arith, is_some, length, ◌==◌, Bool-cases, Option-cases,
  inl, inr,
}
use materios_gateway.Merkle.{Buffer}
use materios_gateway.Quota.Tables.{KeyInfo}
use materios_gateway.Quota.Registry.{
  resolve_key, lookup_upload_eligible_validator, resolve_key_by_account,
}
use materios_gateway.Tokens.{
  TokenRow, Reason, VerifyResult, valid, invalid, token_prefix, starts_with, verify_token,
}
use materios_gateway.Tokens.Lifecycle.{Life, unissued, life, dead, live, reply, verify-reply}
use materios_gateway.Auth.Account.{is_account_address}
use materios_gateway.Auth.Upload.{
  UploadConfig, UploadSig, UploadAuthResult, UploadError, given, given_address,
  has_upload_signature, spend_upload_sig, verify_upload_sig,
}
use materios_gateway.Auth.Resolve.{
  Tier, bearer, api_key, registered_validator, sig_only, AuthResult, authenticated, refused,
  AuthRequest, AuthState, AuthError, invalid_bearer, bearer_text, prefixed, tier_of, by_signature,
  by_key_or_signature, resolve_auth, admin_guard,
}

prefixed_sound :
    (o : Option Text) (t : Text) → prefixed o ≡ some t → starts_with t token_prefix ≡ true
prefixed_sound none t e = absurd (cc)
prefixed_sound (some u) t e = elim (Bool-cases (starts_with u token_prefix)) [
  | inl has ↦ let same : u ≡ t = ground arith in rw (← same) has
  | inr lacks ↦ absurd (ground arith)
]

reply-live :
    (h : String) (l : Life) (a : String) (label : Option String) (h' : String)
    (tenant : Option String)
    → reply h l ≡ valid a label h' tenant
    → l ≡ live a label tenant
reply-live h unissued a label h' tenant e = absurd (cc)
reply-live h (live b label' tenant') a label h' tenant e = ground arith
reply-live h dead a label h' tenant e = absurd (cc)

module _ (hash_key : String → String) (hash_token : Text → String) (sha256_hex : Buffer → Text)
    (decode_address : String → Option Buffer)
    (sr25519_verify : Text → Buffer → Buffer → Option Bool) (funded : String → Bool)
    (cfg : UploadConfig) where
  -- What must hold of a request that is let in under a tier and an identity.
  abbrev pub Grounds : AuthRequest → Option Text → ℕ → AuthState → Tier → String → Type 0
  Grounds req id now st bearer identity =
      (token : Text) × (rows : List TokenRow) × (label : Option String) × (tenant : Option String)
      × (prefixed (bearer_text req.authorization) ≡ some token)
      × (st.tokens ≡ some rows)
      × (life (hash_token token) rows ≡ live identity label tenant)
  Grounds req id now st api_key identity =
      (key : String) × (info : KeyInfo) × (given_address req.x_api_key ≡ some key)
      × (is_account_address decode_address key ≡ false)
      × (resolve_key hash_key key st.quota.api_keys ≡ some info)
      × (info.name ≡ identity)
  Grounds req id now st registered_validator identity =
      (hash : Text) × (sig : UploadSig) × (given id ≡ some hash)
      × (verify_upload_sig sha256_hex decode_address sr25519_verify cfg req.upload hash now
          ≡ UploadAuthResult.valid sig)
      × (sig.address ≡ identity)
      × (is_some (lookup_upload_eligible_validator identity st.quota.api_keys) ≡ true)
      × ((spend_upload_sig cfg sig now st.quota.used_upload_sigs).0 ≡ true)
  Grounds req id now st sig_only identity =
      (hash : Text) × (sig : UploadSig) × (given id ≡ some hash)
      × (verify_upload_sig sha256_hex decode_address sr25519_verify cfg req.upload hash now
          ≡ UploadAuthResult.valid sig)
      × (sig.address ≡ identity)
      × (funded identity ≡ true)
      × ((spend_upload_sig cfg sig now st.quota.used_upload_sigs).0 ≡ true)

  abbrev Sound : AuthRequest → Option Text → ℕ → AuthState → AuthResult → Type 0
  Sound req id now st (authenticated tier identity k v) = Grounds req id now st tier identity
  Sound req id now st (refused e) = Unit

  upload-cases :
      (r : UploadAuthResult)
      → ((sig : UploadSig) × (r ≡ UploadAuthResult.valid sig))
        ⊎ ((e : UploadError) × (r ≡ UploadAuthResult.invalid e))
  upload-cases (UploadAuthResult.valid sig) = inl (sig, refl)
  upload-cases (UploadAuthResult.invalid e) = inr (e, refl)

  by_signature-Sound :
      (req : AuthRequest) (id : Option Text) (now : ℕ) (st : AuthState)
      → Sound req id now st
          (by_signature hash_key hash_token sha256_hex decode_address sr25519_verify funded cfg req
            (given id)
            now
            st).0
  by_signature-Sound req id now st = elim (Option-cases (given id)) [
    | inl missing ↦ rw missing tt
    | inr (hash, e) ↦
        elim (upload-cases
          (verify_upload_sig sha256_hex decode_address sr25519_verify cfg req.upload hash now)) [
            | inr (error, failed) ↦ rw (e, failed) tt
            | inl (sig, verified) ↦
                elim (Bool-cases (spend_upload_sig cfg sig now st.quota.used_upload_sigs).0) [
                  | inl done ↦
                      elim (Bool-cases (
                        is_some (lookup_upload_eligible_validator sig.address st.quota.api_keys))) [
                          | inl eligible ↦
                              let same : result
                                  ≡ authenticated registered_validator sig.address none
                                      (some sig.version) =
                                ground arith in
                              subst (Sound req id now st) (sym same)
                                (hash, sig, e, verified, refl, eligible, done)
                          | inr other ↦ elim (Bool-cases (funded sig.address)) [
                            | inl rich ↦
                                let same : result
                                    ≡ authenticated sig_only sig.address none (some sig.version) =
                                  ground arith in
                                subst (Sound req id now st) (sym same)
                                  (hash, sig, e, verified, refl, rich, done)
                            | inr poor ↦
                                let same : result ≡ refused AuthError.below_minimum =
                                  ground arith in
                                subst (Sound req id now st) (sym same) tt
                          ]
                        ]
                  | inr reused ↦
                      elim (Option-cases (
                        tier_of hash_key hash_token sha256_hex decode_address sr25519_verify funded
                          cfg sig.address st)) [
                            | inl no_tier ↦
                                let same : result ≡ refused AuthError.below_minimum =
                                  ground arith in
                                subst (Sound req id now st) (sym same) tt
                            | inr (tier, found) ↦
                                let same : result ≡ refused AuthError.already_used = ground arith in
                                subst (Sound req id now st) (sym same) tt
                          ]
                ]
          ]
  ]
    where
      result : AuthResult
      result =
          (by_signature hash_key hash_token sha256_hex decode_address sr25519_verify funded cfg req
            (given id) now st).0

  by_key_or_signature-Sound :
      (req : AuthRequest) (id : Option Text) (now : ℕ) (st : AuthState)
      → Sound req id now st
          (by_key_or_signature hash_key hash_token sha256_hex decode_address sr25519_verify funded
            cfg
            (given_address req.x_api_key)
            req
            (given id)
            now
            st).0
  by_key_or_signature-Sound req id now st = elim (Option-cases (given_address req.x_api_key)) [
    | inl no_key ↦ rw no_key (by_signature-Sound req id now st)
    | inr (key, e) ↦ elim (Bool-cases (is_account_address decode_address key)) [
      | inl address ↦
          elim (Bool-cases (not (is_some (given id)) || not (has_upload_signature req.upload))) [
            | inl unsigned ↦ rw (e, address, unsigned) tt
            | inr signed ↦ rw (e, address, signed) (by_signature-Sound req id now st)
          ]
      | inr secret ↦ elim (Option-cases (resolve_key hash_key key st.quota.api_keys)) [
        | inl unknown_key ↦ rw (e, secret, unknown_key) tt
        | inr (info, found) ↦ rw (e, secret, found) (key, info, e, secret, found, refl)
      ]
    ]
  ]

  reply-cases :
      (r : VerifyResult)
      → ((a : String) × (label : Option String) × (h : String) × (tenant : Option String) × (r
            ≡ valid a label h tenant))
        ⊎ ((x : Reason) × (r ≡ invalid x))
  reply-cases (valid a label h tenant) = inl (a, label, h, tenant, refl)
  reply-cases (invalid x) = inr (x, refl)

  resolve_auth-Sound :
      (req : AuthRequest) (id : Option Text) (now : ℕ) (st : AuthState)
      → Sound req id now st
          (resolve_auth hash_key hash_token sha256_hex decode_address sr25519_verify funded cfg req
            id now st).0
  unfolding resolve_auth
  resolve_auth-Sound req id now st =
      elim (Option-cases (prefixed (bearer_text req.authorization))) [
        | inl no_token ↦ rw no_token (by_key_or_signature-Sound req id now st)
        | inr (token, e) ↦ elim (Option-cases st.tokens) [
          | inl closed ↦ simp (e, closed) (by_key_or_signature-Sound req id now st)
          | inr (rows, opened) ↦ elim (reply-cases (verify_token hash_token token now rows).0) [
            | inl (account, label, h, tenant, found) ↦
                let is_live =
                  reply-live (hash_token token) (life (hash_token token) rows) account label h
                    tenant
                    (verdict token rows (prefixed_sound (bearer_text req.authorization) token e)
                      found) in
                let same : result
                    ≡ authenticated bearer account
                        (resolve_key_by_account account st.quota.api_keys) none =
                  ground arith in
                subst (Sound req id now st) (sym same)
                  (token, rows, label, tenant, e, opened, is_live)
            | inr (reason, failed) ↦
                let same : result ≡ refused (invalid_bearer reason) = ground arith in
                subst (Sound req id now st) (sym same) tt
          ]
        ]
      ]
    where
      result : AuthResult
      result =
          (resolve_auth hash_key hash_token sha256_hex decode_address sr25519_verify funded cfg req
            id now st).0

      verdict :
          (token : Text) (rows : List TokenRow)
          → starts_with token token_prefix ≡ true
          → {v : VerifyResult} → (verify_token hash_token token now rows).0 ≡ v
          → reply (hash_token token) (life (hash_token token) rows) ≡ v
      verdict token rows has_prefix e =
          sym (rw has_prefix at (verify-reply hash_token token now rows)) ∙ e

  -- No request is let in without its grounds. A bearer token: it has the prefix and the table says
  -- that it is live, for the account that becomes the identity. An API key: it is no account
  -- address and it resolves to an enabled row, whose name is the identity. A signature: the request
  -- verifies, its signatures were not used and are now spent, and the signer is an upload-eligible
  -- validator or has funds, by the tier.
  pub resolve_auth_sound :
      (req : AuthRequest) (id : Option Text) (now : ℕ) (st : AuthState) (tier : Tier)
      (identity : String) (k : Option KeyInfo) (version : Option ℕ)
      → (resolve_auth hash_key hash_token sha256_hex decode_address sr25519_verify funded cfg req id
          now st).0
        ≡ authenticated tier identity k version
      → Grounds req id now st tier identity
  resolve_auth_sound req id now st tier identity k version e =
      subst (Sound req id now st) e (resolve_auth-Sound req id now st)

  -- A bearer token that is revoked is refused, whatever else the request carries.
  pub resolve_auth_revoked :
      (req : AuthRequest) (id : Option Text) (now : ℕ) (st : AuthState) (token : Text)
      (rows : List TokenRow)
      → prefixed (bearer_text req.authorization) ≡ some token
      → st.tokens ≡ some rows
      → life (hash_token token) rows ≡ dead
      → (resolve_auth hash_key hash_token sha256_hex decode_address sr25519_verify funded cfg req id
          now st).0
        ≡ refused (invalid_bearer Reason.revoked)
  unfolding resolve_auth
  resolve_auth_revoked req id now st token rows h open' ended =
      let has_prefix = prefixed_sound (bearer_text req.authorization) token h in
      let replied = verify-reply hash_token token now rows in
      let r : (verify_token hash_token token now rows).0 ≡ invalid Reason.revoked = ground arith in
      ground arith

-- The admin guard lets through the configured token alone, and no request if that is empty.
admin_guard_iff :
    (expected : Buffer) (provided : Option Buffer)
    → (admin_guard expected provided ≡ true) ↔ ((provided ≡ some expected) × (expected ≢ []))
unfolding admin_guard
admin_guard_iff expected none = ((λ e. absurd (cc)), (λ h. absurd (cc (h.0))))
admin_guard_iff expected (some []) =
    ((λ e. absurd (cc)), (λ h. let same : [] ≡ expected = ground arith in absurd (h.1 (sym same))))
admin_guard_iff expected (some (b ∷ bs)) = (to, from)
  where
    to :
        admin_guard expected (some (b ∷ bs)) ≡ true
        → (some (b ∷ bs) ≡ some expected) × (expected ≢ [])
    to e = elim (Bool-cases (length (b ∷ bs) == length expected)) [
      | inl same_len ↦
          let same : b ∷ bs ≡ expected = (text_eq_iff _ _).0 (ground arith) in
          (ap some same, (λ nil. cc (same, nil)))
      | inr other ↦ absurd (ground arith)
    ]

    from :
        (some (b ∷ bs) ≡ some expected) × (expected ≢ [])
        → admin_guard expected (some (b ∷ bs)) ≡ true
    from h =
        let same : b ∷ bs ≡ expected = ground arith in
        rw (← same) (ground (arith, (text_eq_iff (b ∷ bs) (b ∷ bs)).1 refl))
