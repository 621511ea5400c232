-- ===== src/Auth/Bearer.antt =====
-- The bearer middleware (`bearerAuth` of src/bearer-auth.ts), and how it compares with `resolveAuth`
-- (src/auth.ts).
use materios_gateway.Prelude.{
  ℕ, ◌≡◌, refl, String, Text, Bool, Option, none, some, List, arith, if◌then◌else◌, Bool-cases,
  Option-cases, inl, inr,
}
use materios_gateway.Merkle.{Buffer}
use materios_gateway.Quota.Tables.{KeyInfo}
use materios_gateway.Quota.Registry.{resolve_key, resolve_key_by_account, or_else}
use materios_gateway.Tokens.{
  TokenRow, Reason, VerifyResult, valid, invalid, malformed, token_prefix, starts_with,
  verify_token,
}
use materios_gateway.Auth.Account.{is_account_address}
use materios_gateway.Auth.Upload.{UploadConfig, given_address}
use materios_gateway.Auth.Resolve.{
  bearer_text, bearer, AuthRequest, AuthState, authenticated, by_reply, resolve_auth,
}

pub data MiddlewareTier : Type 0 where
  bearer_tier api_key_tier : MiddlewareTier

pub data Refusal : Type 0 where
  bad_bearer : Reason → Refusal
  address_presented bad_api_key authentication_required : Refusal

-- `passed` has the account, the tier and the key's row; `anonymous` goes on without an account;
-- `failed` is the error that is thrown before the token database is open.
pub data MiddlewareResult : Type 0 where
  passed : String → MiddlewareTier → Option KeyInfo → MiddlewareResult
  anonymous failed : MiddlewareResult
  unauthorized : Refusal → MiddlewareResult

module _ (hash_key : String → String) (hash_token : Text → String)
    (decode_address : String → Option Buffer) where
  abbrev middleware_key : Bool → Option String → AuthState → MiddlewareResult
  middleware_key required none st =
      if required then unauthorized authentication_required else anonymous
  middleware_key required (some k) st =
      if is_account_address decode_address k
      then unauthorized address_presented
      else elim (resolve_key hash_key k st.quota.api_keys) [
        | none ↦ unauthorized bad_api_key
        | some info ↦ passed (or_else info.validator_id info.name) api_key_tier (some info)
      ]

  abbrev middleware_reply : VerifyResult × List TokenRow → AuthState → MiddlewareResult × AuthState
  middleware_reply (valid account label h tenant, rows) st =
      (passed account bearer_tier none, record st { tokens = some rows })
  middleware_reply (invalid reason, rows) st =
      (unauthorized (bad_bearer reason), record st { tokens = some rows })

  abbrev middleware_token :
      Text → ℕ → Option (List TokenRow) → AuthState → MiddlewareResult × AuthState
  middleware_token token now none st = (failed, st)
  middleware_token token now (some rows) st =
      middleware_reply (verify_token hash_token token now rows) st

  abbrev middleware_header :
      Bool → Option Text → Option String → ℕ → AuthState → MiddlewareResult × AuthState
  middleware_header required none key now st = (middleware_key required key st, st)
  middleware_header required (some token) key now st =
      if starts_with token token_prefix
      then middleware_token token now st.tokens st
      else (unauthorized (bad_bearer malformed), st)

  unfoldable pub bearer_auth : Bool → AuthRequest → ℕ → AuthState → MiddlewareResult × AuthState
  bearer_auth required req now st =
      middleware_header required (bearer_text req.authorization) (given_address req.x_api_key) now
        st

  module _ (sha256_hex : Buffer → Text) (sr25519_verify : Text → Buffer → Buffer → Option Bool)
      (funded : String → Bool) (cfg : UploadConfig) where
    reply-agrees :
        (r : VerifyResult × List TokenRow) (st : AuthState) (account : String) (k : Option KeyInfo)
        → (middleware_reply r st).0 ≡ passed account bearer_tier k
        → ((by_reply hash_key hash_token sha256_hex decode_address sr25519_verify funded cfg r st).0
            ≡ authenticated bearer account (resolve_key_by_account account st.quota.api_keys) none)
          × ((by_reply hash_key hash_token sha256_hex decode_address sr25519_verify funded cfg r
                st).1
              ≡ (middleware_reply r st).1)
    reply-agrees (valid a label h tenant, rows) st account k e =
        let same : a ≡ account = ground arith in (rw same refl, refl)
    reply-agrees (invalid reason, rows) st account k e = absurd (cc)

    -- A request that the middleware lets through by a bearer token is let through by `resolveAuth`,
    -- with whatever content hash: the identity is the same account, with the row of its key if it has
    -- one, and the databases are left the same.
    pub bearer_auth-resolve_auth :
        (required : Bool) (req : AuthRequest) (id : Option Text) (now : ℕ) (st : AuthState)
        (account : String) (k : Option KeyInfo)
        → (bearer_auth required req now st).0 ≡ passed account bearer_tier k
        → ((resolve_auth hash_key hash_token sha256_hex decode_address sr25519_verify funded cfg req
              id now st).0
            ≡ authenticated bearer account (resolve_key_by_account account st.quota.api_keys) none)
          × ((resolve_auth hash_key hash_token sha256_hex decode_address sr25519_verify funded cfg
                req id now st).1
              ≡ (bearer_auth required req now st).1)
    unfolding bearer_auth resolve_auth
    bearer_auth-resolve_auth required req id now st account k e =
        elim (Option-cases (bearer_text req.authorization)) [
          | inl missing ↦ absurd (ground arith)
          | inr (token, found) ↦ elim (Bool-cases (starts_with token token_prefix)) [
            | inr lacks ↦ absurd (ground arith)
            | inl has ↦ elim (Option-cases st.tokens) [
              | inl closed ↦ absurd (ground arith)
              | inr (rows, opened) ↦
                  simp (found, has, opened)
                    (reply-agrees (verify_token hash_token token now rows) st account k
                      (simp (found, has, opened) at e))
            ]
          ]
        ]
