-- ===== src/Billing/Check/Tests.antt =====
-- Payers and checks on concrete requests, and the theorems at such inputs. The stand-ins for
-- the platform are a hash that is one text, and two queries of the chain.
use materios_gateway.Prelude.{
  ℕ, ◌/◌, ◌≡◌, ◌≢◌, ◌⊎◌, ◌↔◌, refl, String, Text, codes, text_eq_iff, true, false, Option, none,
  some, [], ◌∷◌,
}
use materios_gateway.Tokens.{TokenRow, verify_token}
use materios_gateway.Auth.Upload.{given}
use materios_gateway.Auth.Resolve.{bearer_text}
use materios_gateway.Billing.Classify.{
  gated, writes, guards, path_is, assert_endpoint_class, classify_endpoint,
}
use materios_gateway.Billing.Payer.{
  BillingRequest, api_key, self_paid, claimed_payer, identify_payer,
}
use materios_gateway.Billing.Check.{
  live, top_up, BillingConfig, BillingState, PaymentRequired, refusal, billing_402,
}
use materios_gateway.Billing.Check.Laws.{Refuses, refusal_of, billing_402_iff, payer_of}
use materios_gateway.Billing.Check.Privacy.{
  Presents, billing_402_reveals, billing_402_alike, billing_402-reads,
}

abbrev put : Text
put = codes "put"

abbrev hash_one : Text → String
hash_one t = "h"

abbrev price_of : String → ℕ → Option (Option ℕ)
price_of c bytes = some (some 500)

abbrev balance_at : Text → Option (Option ℕ)
balance_at (c ∷ cs) = some (some 40)
balance_at [] = none

abbrev row : TokenRow
row = record {
  token_hash = "h";
  account_ss58 = "5Fx";
  label = none;
  created_at = 3;
  last_used_at = none;
  revoked_at = none;
  revoked_reason = none;
  tenant_id = none;
}

abbrev setting : BillingConfig
setting = record { phase = live; treasury = some (codes "5Treasury") }

abbrev start : BillingState
start = record { tokens = some (row ∷ []); warnings = []; errors = 0 }

abbrev upload : BillingRequest
upload = record {
  method = put;
  path = codes "/blobs/ab/chunks/7";
  authorization = none;
  x_402_payment_signature = some (codes "sig");
  x_402_payer_ss58 = some (codes "5Claimed");
  content_length = some 9;
}

abbrev rich : BillingRequest
rich = record upload { x_402_payer_ss58 = some (codes "5Rich") }

abbrev sponsored : BillingRequest
sponsored = record upload { authorization = some (codes "Bearer matra_x") }

payer_sponsored :
    (identify_payer hash_one (some (codes "5Treasury")) sponsored 8 (some (row ∷ []))).0
    ≡ record { kind = api_key; ss58 = some (codes "5Treasury") }
unfolding identify_payer bearer_text verify_token
payer_sponsored = refl

payer_closed :
    (identify_payer hash_one (some (codes "5Treasury")) sponsored 8 none).0
    ≡ record { kind = self_paid; ss58 = some (codes "5Claimed") }
unfolding identify_payer bearer_text claimed_payer
payer_closed = refl

abbrev told : PaymentRequired
told = record {
  header = record {
    endpoint_class = "chunk_upload";
    amount = 500;
    payer = none;
    nonce = codes "r";
    expires = 307;
  };
  endpoint_class = "chunk_upload";
  price = 500;
  balance = none;
  payer = none;
  request_id = codes "r";
  expires = 307;
  hint = top_up;
}

refused_upload :
    refusal_of (billing_402 hash_one price_of balance_at setting upload (codes "r") 7900 start).0
    ≡ some told
unfolding billing_402 identify_payer bearer_text claimed_payer refusal classify_endpoint guards
    gated writes path_is assert_endpoint_class
refused_upload = refl

refused_rich :
    refusal_of (billing_402 hash_one price_of balance_at setting rich (codes "r") 7900 start).0
    ≡ some told
unfolding billing_402 identify_payer bearer_text claimed_payer refusal classify_endpoint guards
    gated writes path_is assert_endpoint_class
refused_rich = refl

unverified : (payer_of hash_one price_of balance_at setting upload 7900 start).kind ≢ api_key
unfolding identify_payer bearer_text claimed_payer
unverified = λ e. cc

alike :
    (payer_of hash_one price_of balance_at setting upload 7900 start).kind
    ≡ (payer_of hash_one price_of balance_at setting rich 7900 start).kind
unfolding identify_payer bearer_text claimed_payer
alike = refl

billing_402_iff_example :
    (refusal_of (billing_402 hash_one price_of balance_at setting upload (codes "r") 7900 start).0
      ≡ some told)
    ↔ Refuses hash_one price_of balance_at setting upload (codes "r") 7900 start told
billing_402_iff_example =
    billing_402_iff hash_one price_of balance_at setting upload (codes "r") 7900 start told

billing_402_reveals_example :
    ((told.payer ≡ none) × (told.balance ≡ none) × (told.header.payer ≡ none))
    ⊎ (Presents hash_one setting upload (7900 / 1000) start.tokens
        × (told.payer ≡ given setting.treasury)
        × (told.header.payer ≡ given setting.treasury))
billing_402_reveals_example =
    billing_402_reveals hash_one price_of balance_at setting upload (codes "r") 7900 start told
      refused_upload

billing_402_alike_example : told ≡ told
billing_402_alike_example =
    billing_402_alike hash_one price_of balance_at setting upload rich (codes "r") 7900 start told
      told refl refl refl unverified alike refused_upload refused_rich

abbrev fetch : BillingRequest
fetch = record upload { method = codes "get"; path = codes "/blobs/ab/manifest" }

not_usage : fetch.path ≢ codes "/billing/usage"
not_usage e =
    let equal : false ≡ true = (text_eq_iff fetch.path (codes "/billing/usage")).1 e in
    absurd (cc equal)

billing_402-reads_example :
    refusal_of (billing_402 hash_one price_of balance_at setting fetch (codes "r") 7900 start).0
    ≡ none
billing_402-reads_example =
    billing_402-reads hash_one price_of balance_at setting fetch (codes "r") 7900 start refl
      not_usage
