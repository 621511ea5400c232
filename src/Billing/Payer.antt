-- ===== src/Billing/Payer.antt =====
-- Who pays for a request: `identifyPayer` and `payerLogFields` (src/middleware/billing-402.ts).
use materios_gateway.Prelude.{ℕ, String, Text, Option, none, some, List, length, leb, if◌then◌else◌}
use materios_gateway.Tokens.{TokenRow, VerifyResult, valid, invalid, verify_token}
use materios_gateway.Auth.Account.{max_account_id_chars}
use materios_gateway.Auth.Upload.{given}
use materios_gateway.Auth.Resolve.{bearer_text, prefixed}

-- What the check reads of a request. The length is the number that the header's digits spell.
pub record BillingRequest : Type 0 where
  pub method : Text
  pub path : Text
  pub authorization : Option Text
  pub x_402_payment_signature : Option Text
  pub x_402_payer_ss58 : Option Text
  pub content_length : Option ℕ

pub data PayerKind : Type 0 where
  api_key self_paid nobody : PayerKind

pub record PayerIdentity : Type 0 where
  pub kind : PayerKind
  pub ss58 : Option Text

abbrev pub no_payer : PayerIdentity
no_payer = record { kind = nobody; ss58 = none }

-- The payer that the request claims, with a signature that is not checked here.
abbrev pub claimed_of : Option Text → Option Text → PayerIdentity
claimed_of (some sig) (some ss58) =
    if leb (length ss58) max_account_id_chars
    then record { kind = self_paid; ss58 = some ss58 }
    else no_payer
claimed_of none ss58 = no_payer
claimed_of (some sig) none = no_payer

unfoldable pub claimed_payer : BillingRequest → PayerIdentity
claimed_payer req = claimed_of (given req.x_402_payment_signature) (given req.x_402_payer_ss58)

abbrev pub by_verified :
    Option Text
    → BillingRequest
    → VerifyResult × List TokenRow
    → PayerIdentity × Option (List TokenRow)
by_verified treasury req (valid account label h tenant, rows) =
    (record { kind = api_key; ss58 = given treasury }, some rows)
by_verified treasury req (invalid reason, rows) = (claimed_payer req, some rows)

-- `tokens` is `none` before the token database is open: the error is caught.
abbrev pub by_bearer :
    (Text → String)
    → Option Text
    → BillingRequest
    → ℕ
    → Option Text
    → Option (List TokenRow)
    → PayerIdentity × Option (List TokenRow)
by_bearer hash_token treasury req now (some token) (some rows) =
    by_verified treasury req (verify_token hash_token token now rows)
by_bearer hash_token treasury req now (some token) none = (claimed_payer req, none)
by_bearer hash_token treasury req now none tokens = (claimed_payer req, tokens)

-- `treasury` is `config.fpsTreasurySs58`.
unfoldable pub identify_payer :
    (Text → String)
    → Option Text
    → BillingRequest
    → ℕ
    → Option (List TokenRow)
    → PayerIdentity × Option (List TokenRow)
identify_payer hash_token treasury req now tokens =
    by_bearer hash_token treasury req now (prefixed (bearer_text req.authorization)) tokens

-- The verified payer and the claimed one, of which the log has at most one.
abbrev pub payer_log_fields : PayerKind → Option Text → Option Text × Option Text
payer_log_fields api_key ss58 = (ss58, none)
payer_log_fields self_paid ss58 = (none, ss58)
payer_log_fields nobody ss58 = (none, none)
