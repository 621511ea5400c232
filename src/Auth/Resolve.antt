-- ===== src/Auth/Resolve.antt =====
-- Resolving who sends a request: `resolveAuth` (src/auth.ts), and the admin guard
-- (src/bearer-auth.ts). `funded` is the balance check on the chain (src/rpc-client.ts).
pub mod Laws
use materios_gateway.Prelude.{
  ℕ, ◌/◌, String, Text, text_eq, codes, Bool, true, false, not, ◌&&◌, ◌||◌, Option, none, some,
  List, [], ◌∷◌, ◌++◌, any, drop, length, leb, ◌==◌, is_some, if◌then◌else◌,
}
use materios_gateway.Merkle.{Buffer, zeros}
use materios_gateway.Quota.Tables.{QuotaDb, KeyInfo, UsedSig}
use materios_gateway.Quota.Registry.{
  resolve_key, resolve_key_by_account, lookup_upload_eligible_validator, or_else,
}
use materios_gateway.Tokens.{
  TokenRow, Reason, VerifyResult, valid, invalid, malformed, token_prefix, starts_with,
  verify_token,
}
use materios_gateway.Auth.Account.{is_account_address}
use materios_gateway.Auth.Upload
use materios_gateway.Auth.Upload.{
  UploadConfig, UploadRequest, UploadError, UploadAuthResult, given, given_address,
  has_upload_signature, spend_upload_sig, verify_upload_sig,
}

-- The white space that `trim` removes.
abbrev pub is_space : ℕ → Bool
is_space c =
    (leb 9 c && leb c 13)
    || (c == 32
        || (c == 0xA0
            || (c == 0x1680
                || ((leb 0x2000 c && leb c 0x200A)
                    || (c == 0x2028
                        || (c == 0x2029
                            || (c == 0x202F || (c == 0x205F || (c == 0x3000 || c == 0xFEFF)))))))))

abbrev pub trim_start : Text → Text
trim_start [] = []
trim_start (c ∷ cs) = if is_space c then trim_start cs else c ∷ cs

abbrev keep_before : ℕ → Text → Text
keep_before c [] = if is_space c then [] else c ∷ []
keep_before c (d ∷ ds) = c ∷ (d ∷ ds)

abbrev pub trim_end : Text → Text
trim_end [] = []
trim_end (c ∷ cs) = keep_before c (trim_end cs)

-- The text behind `Bearer `, trimmed, if the header begins so.
unfoldable pub bearer_text : Option Text → Option Text
bearer_text none = none
bearer_text (some h) =
    if starts_with h (codes "Bearer ") then some (trim_end (trim_start (drop 7 h))) else none

abbrev pub prefixed : Option Text → Option Text
prefixed none = none
prefixed (some t) = if starts_with t token_prefix then some t else none

pub data Tier : Type 0 where
  bearer api_key registered_validator sig_only : Tier

pub data AuthError : Type 0 where
  invalid_bearer : Reason → AuthError
  address_as_key invalid_api_key below_minimum already_used no_authentication : AuthError
  upload_rejected : UploadError → AuthError

-- `authenticated` has the tier, the identity, the key's row and the signature's version.
pub data AuthResult : Type 0 where
  authenticated : Tier → String → Option KeyInfo → Option ℕ → AuthResult
  refused : AuthError → AuthResult

pub record AuthRequest : Type 0 where
  pub authorization : Option Text
  pub x_api_key : Option String
  pub upload : UploadRequest

-- The databases; `tokens` is `none` before the token database is open.
pub record AuthState : Type 0 where
  pub quota : QuotaDb
  pub tokens : Option (List TokenRow)

module _ (hash_key : String → String) (hash_token : Text → String) (sha256_hex : Buffer → Text)
    (decode_address : String → Option Buffer)
    (sr25519_verify : Text → Buffer → Buffer → Option Bool) (funded : String → Bool)
    (cfg : UploadConfig) where
  abbrev pub tier_of : String → AuthState → Option Tier
  tier_of address st =
      if is_some (lookup_upload_eligible_validator address st.quota.api_keys)
      then some registered_validator
      else if funded address
      then some sig_only
      else none

  abbrev pub spend : Tier → Upload.UploadSig → ℕ → AuthState → AuthResult × AuthState
  spend tier sig now st =
      let (done, used) = spend_upload_sig cfg sig now st.quota.used_upload_sigs in
      (
        if done
            then authenticated tier sig.address none (some sig.version)
            else refused already_used,
        record st { quota = record (st.quota) { used_upload_sigs = used } },
      )

  abbrev pub after_verify : UploadAuthResult → ℕ → AuthState → AuthResult × AuthState
  after_verify (UploadAuthResult.invalid e) now st = (refused (upload_rejected e), st)
  after_verify (UploadAuthResult.valid sig) now st = elim (tier_of sig.address st) [
    | none ↦ (refused below_minimum, st)
    | some tier ↦ spend tier sig now st
  ]

  abbrev pub by_signature : AuthRequest → Option Text → ℕ → AuthState → AuthResult × AuthState
  by_signature req none now st = (refused no_authentication, st)
  by_signature req (some id) now st =
      after_verify
        (verify_upload_sig sha256_hex decode_address sr25519_verify cfg req.upload id now) now st

  abbrev pub by_key : Option KeyInfo → AuthState → AuthResult × AuthState
  by_key none st = (refused invalid_api_key, st)
  by_key (some k) st = (authenticated api_key k.name (some k) none, st)

  abbrev pub by_key_or_signature :
      Option String → AuthRequest → Option Text → ℕ → AuthState → AuthResult × AuthState
  by_key_or_signature none req id now st = by_signature req id now st
  by_key_or_signature (some k) req id now st =
      if is_account_address decode_address k
      then (if not (is_some id) || not (has_upload_signature req.upload)
          then (refused address_as_key, st)
          else by_signature req id now st)
      else by_key (resolve_key hash_key k st.quota.api_keys) st

  abbrev pub by_reply : VerifyResult × List TokenRow → AuthState → AuthResult × AuthState
  by_reply (valid account label h tenant, rows) st = (
    authenticated bearer account (resolve_key_by_account account st.quota.api_keys) none,
    record st { tokens = some rows },
  )
  by_reply (invalid reason, rows) st =
      (refused (invalid_bearer reason), record st { tokens = some rows })

  abbrev pub by_token :
      Option Text
      → Option (List TokenRow)
      → AuthRequest
      → Option Text
      → ℕ
      → AuthState
      → AuthResult × AuthState
  by_token (some token) (some rows) req id now st =
      by_reply (verify_token hash_token token now rows) st
  by_token (some token) none req id now st =
      by_key_or_signature (given_address req.x_api_key) req id now st
  by_token none tokens req id now st =
      by_key_or_signature (given_address req.x_api_key) req id now st

  -- `resolveAuth` at `now` (seconds); `id` is the content hash, if the route has one.
  unfoldable pub resolve_auth : AuthRequest → Option Text → ℕ → AuthState → AuthResult × AuthState
  resolve_auth req id now st =
      by_token (prefixed (bearer_text req.authorization)) st.tokens req (given id) now st

-- `adminGuard`: whether a request with this header goes on. Texts are their UTF-8 bytes.
pub admin_guard : Buffer → Option Buffer → Bool
admin_guard expected none = false
admin_guard expected (some []) = false
admin_guard expected (some (b ∷ bs)) =
    let same_len = length (b ∷ bs) == length expected in
    let candidate = if same_len then b ∷ bs else zeros (length expected) in
    let equal = text_eq candidate expected in not (not same_len || not equal)
