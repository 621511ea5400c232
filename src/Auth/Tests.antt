-- ===== src/Auth/Tests.antt =====
-- Requests on concrete databases, and the theorems at such inputs. The stand-ins for the platform's
-- functions are a hash that is one text, a decoder of one address and a verifier of one key.
use materios_gateway.Prelude.{
  ℕ, zero, suc, ◌≡◌, refl, ◌↔◌, String, Text, str_eq, text_eq, codes, Bool, true, false, Option,
  none, some, [], ◌∷◌, ◌++◌, arith, if◌then◌else◌,
}
use materios_gateway.Merkle.{Buffer, zeros}
use materios_gateway.Quota.Tables.{QuotaDb}
use materios_gateway.Quota.Signatures.{claim_upload_signatures, unique}
use materios_gateway.Quota.Signatures.Replay.{claims}
use materios_gateway.Quota.Registry.{lookup_upload_eligible_validator, resolve_key_by_account}
use materios_gateway.Tokens.{TokenRow, Reason, verify_token}
use materios_gateway.Auth.Account.{
  decode_account_id, ss58_shape, is_normalizable, is_account_address,
}
use materios_gateway.Auth.Upload
use materios_gateway.Auth.Upload.{
  UploadConfig, UploadRequest, valid, has_upload_signature, decimal, signature_key, sig_hex,
  sig_bytes, upload_sig_v1_message, upload_sig_v2_message, carried, check_carried, spend_upload_sig,
  verify_upload_sig,
}
use materios_gateway.Auth.Upload.Laws.{IsVerified, signature_key_iff, verify_upload_sig_sound}
use materios_gateway.Auth.Upload.Once.{spend_once}
use materios_gateway.Auth.Resolve.{
  bearer_text, prefixed, sig_only, AuthRequest, AuthState, authenticated, refused, invalid_bearer,
  resolve_auth, bearer,
}
use materios_gateway.Auth.Bearer.{
  bearer_auth, bearer_tier, passed, failed, bearer_auth-resolve_auth,
}
use materios_gateway.Auth.Resolve.Laws.{Grounds, resolve_auth_sound, resolve_auth_revoked}

abbrev repeat : ℕ → Text → Text
repeat zero t = []
repeat (suc n) t = t ++ repeat n t

abbrev body_hash : Buffer → Text
body_hash b = codes "body"

abbrev key_hash : String → String
key_hash s = "key"

abbrev token_hash : Text → String
token_hash t = "token"

abbrev decode : String → Option Buffer
decode a = if str_eq a "5Alice" then some (zeros 32) else none

abbrev verifies : Text → Buffer → Buffer → Option Bool
verifies message sig key = some (text_eq key (zeros 32))

abbrev has_funds : String → Bool
has_funds a = true

abbrev config : UploadConfig
config = record {
  batch_writer_addresses = "5Writer" ∷ [];
  upload_sig_max_age_sec = 300;
  process_start_sec = 100;
}

abbrev upper_sig : Text
upper_sig = codes "0x" ++ repeat 64 (codes "AB")

abbrev lower_sig : Text
lower_sig = repeat 64 (codes "ab")

abbrev upload : UploadRequest
upload = record {
  x_upload_sig_v2 = some upper_sig;
  x_upload_sig = none;
  x_uploader_address = some "5Alice";
  x_upload_ts = some (codes "1000");
  method = codes "PUT";
  original_url = codes "/blobs/c1?x=1";
  raw_body = [];
}

abbrev alice_sig : Upload.UploadSig
alice_sig = record { address = "5Alice"; version = 2; ts = 1_000; signatures = lower_sig ∷ [] }

upload_signed : has_upload_signature upload ≡ true
unfolding has_upload_signature
upload_signed = refl

v1_message :
    upload_sig_v1_message (codes "c1") (codes "5Alice") 1_000
    ≡ codes "materios-upload-v1|c1|5Alice|1000"
unfolding upload_sig_v1_message decimal
v1_message = refl

v2_message :
    upload_sig_v2_message
      (codes "PUT")
      (codes "/blobs")
      (codes "body")
      (codes "c1")
      (codes "5Alice")
      10
    ≡ codes "materios-upload-v2|PUT|/blobs|body|c1|5Alice|10"
unfolding upload_sig_v2_message decimal
v2_message = refl

upper_hex : sig_hex upper_sig ≡ true
unfolding sig_hex
upper_hex = refl

lower_hex : sig_hex lower_sig ≡ true
unfolding sig_hex
lower_hex = refl

signature_key_iff_example :
    (signature_key upper_sig ≡ signature_key lower_sig)
    ↔ (sig_bytes upper_sig ≡ sig_bytes lower_sig)
signature_key_iff_example = signature_key_iff upper_sig lower_sig upper_hex lower_hex

upload_verified :
    verify_upload_sig body_hash decode verifies config upload (codes "c1") 1_100 ≡ valid alice_sig
unfolding verify_upload_sig carried check_carried decode_account_id sig_hex signature_key
upload_verified = refl

verify_upload_sig_sound_example :
    IsVerified body_hash decode verifies config upload (codes "c1") 1_100 alice_sig
verify_upload_sig_sound_example =
    verify_upload_sig_sound body_hash decode verifies config upload (codes "c1") 1_100 alice_sig
      upload_verified

sig_spent : (spend_upload_sig config alice_sig 1_100 []).0 ≡ true
unfolding spend_upload_sig claim_upload_signatures unique
sig_spent = refl

spend_once_example :
    (spend_upload_sig config alice_sig 1_200 (
      claims
        (record { sigs = codes "other" ∷ []; expires = 1_450; now = 1_150 } ∷ [])
        (spend_upload_sig config alice_sig 1_100 []).1)).0
    ≡ false
spend_once_example =
    spend_once config alice_sig alice_sig 1_100 1_200 []
      (record { sigs = codes "other" ∷ []; expires = 1_450; now = 1_150 } ∷ []) lower_sig sig_spent
      (omega arith, tt) refl refl refl

abbrev empty_quota : QuotaDb
empty_quota = record {
  api_keys = [];
  keys = record { daily = []; inflight = [] };
  accounts = record { daily = []; inflight = [] };
  used_upload_sigs = [];
}

abbrev revoked_row : TokenRow
revoked_row = record {
  token_hash = "token";
  account_ss58 = "5Alice";
  label = none;
  created_at = 1;
  last_used_at = none;
  revoked_at = some 2;
  revoked_reason = none;
  tenant_id = none;
}

abbrev state : AuthState
state = record { quota = empty_quota; tokens = some (revoked_row ∷ []) }

abbrev signed_request : AuthRequest
signed_request = record { authorization = none; x_api_key = some "5Alice"; upload = upload }

abbrev bearer_request : AuthRequest
bearer_request = record signed_request { authorization = some (codes "Bearer matra_x ") }

-- The address in the key header leads to the signature check.
signed_result :
    (resolve_auth key_hash token_hash body_hash decode verifies has_funds config signed_request
      (some (codes "c1"))
      1_100
      state).0
    ≡ authenticated sig_only "5Alice" none (some 2)
unfolding resolve_auth bearer_text is_account_address is_normalizable ss58_shape
    has_upload_signature verify_upload_sig carried check_carried decode_account_id sig_hex
    signature_key lookup_upload_eligible_validator spend_upload_sig claim_upload_signatures unique
signed_result = refl

resolve_auth_sound_example :
    Grounds key_hash token_hash body_hash decode verifies has_funds config signed_request
      (some (codes "c1"))
      1_100
      state
      sig_only
      "5Alice"
resolve_auth_sound_example =
    resolve_auth_sound key_hash token_hash body_hash decode verifies has_funds config signed_request
      (some (codes "c1")) 1_100 state sig_only "5Alice" none (some 2) signed_result

bearer_found : prefixed (bearer_text bearer_request.authorization) ≡ some (codes "matra_x")
unfolding bearer_text
bearer_found = refl

resolve_auth_revoked_example :
    (resolve_auth key_hash token_hash body_hash decode verifies has_funds config bearer_request
      (some (codes "c1"))
      1_100
      state).0
    ≡ refused (invalid_bearer Reason.revoked)
resolve_auth_revoked_example =
    resolve_auth_revoked key_hash token_hash body_hash decode verifies has_funds config
      bearer_request (some (codes "c1")) 1_100 state (codes "matra_x") (revoked_row ∷ [])
      bearer_found refl refl

abbrev live_state : AuthState
live_state = record state { tokens = some (record revoked_row { revoked_at = none } ∷ []) }

middleware_passes :
    (bearer_auth key_hash token_hash decode true bearer_request 1_100 live_state).0
    ≡ passed "5Alice" bearer_tier none
unfolding bearer_auth bearer_text verify_token
middleware_passes = refl

bearer_auth-resolve_auth_example :
    ((resolve_auth key_hash token_hash body_hash decode verifies has_funds config bearer_request
        (some (codes "c1"))
        1_100
        live_state).0
      ≡ authenticated bearer "5Alice"
          (resolve_key_by_account "5Alice" live_state.quota.api_keys)
          none)
    × ((resolve_auth key_hash token_hash body_hash decode verifies has_funds config bearer_request
          (some (codes "c1"))
          1_100
          live_state).1
        ≡ (bearer_auth key_hash token_hash decode true bearer_request 1_100 live_state).1)
bearer_auth-resolve_auth_example =
    bearer_auth-resolve_auth key_hash token_hash decode body_hash verifies has_funds config true
      bearer_request (some (codes "c1")) 1_100 live_state "5Alice" none middleware_passes

-- The middleware fails before the token database is open, where `resolveAuth` goes on to the key.
middleware_fails :
    (bearer_auth key_hash token_hash decode true bearer_request 1_100
      (record state { tokens = none })).0
    ≡ failed
unfolding bearer_auth bearer_text
middleware_fails = refl
