-- ===== src/Billing/Check.antt =====
-- The admission check: `billing402Middleware` (src/middleware/billing-402.ts). The queries of the
-- chain are parameters, as they are in the source; `none` is a query that throws, and `some none` one
-- that has no value.
pub mod Laws
pub mod Privacy
mod Tests
use materios_gateway.Prelude.{
  ℕ, ◌+◌, ◌/◌, String, Text, str_eq, Bool, true, false, not, ◌&&◌, ◌||◌, Option, none, some, List,
  ltb, ◌==◌, is_some, if◌then◌else◌,
}
use materios_gateway.Tokens.{TokenRow}
use materios_gateway.Auth.Upload.{given}
use materios_gateway.Billing.Throttle.{Emission}
use materios_gateway.Billing.Classify.{classify_endpoint, is_unpriced}
use materios_gateway.Billing.Payer.{
  BillingRequest, PayerIdentity, PayerKind, api_key, self_paid, nobody, identify_payer,
  payer_log_fields,
}

pub data Phase : Type 0 where
  off measurement live : Phase

pub data Reason : Type 0 where
  pallet_not_present no_payer_identity balance_read_failed insufficient_balance : Reason

pub record BillingConfig : Type 0 where
  pub phase : Phase
  pub treasury : Option Text

pub record BillingDecisionLog : Type 0 where
  pub phase : Phase
  pub endpoint_class : String
  pub payer_kind : PayerKind
  pub payer_ss58 : Option Text
  pub payer_ss58_claimed : Option Text
  pub price : ℕ
  pub balance : Option ℕ
  pub would_402 : Bool
  pub acted_402 : Bool
  pub reason : Option Reason

-- The header `X-402-Payment-Required`; its other members are constants.
pub record PaymentRequiredHeader : Type 0 where
  pub endpoint_class : String
  pub amount : ℕ
  pub payer : Option Text
  pub nonce : Text
  pub expires : ℕ

-- The text for the reader: to authenticate, that the treasury has run out, or to top up.
pub data Hint : Type 0 where
  authenticate treasury_exhausted top_up : Hint

-- The reply 402. Its header `WWW-Authenticate` has the class and the price of the body.
pub record PaymentRequired : Type 0 where
  pub header : PaymentRequiredHeader
  pub endpoint_class : String
  pub price : ℕ
  pub balance : Option ℕ
  pub payer : Option Text
  pub request_id : Text
  pub expires : ℕ
  pub hint : Hint

-- `next` goes on, with the line that is logged; `failed_open` goes on after an error.
pub data Outcome : Type 0 where
  next : Option BillingDecisionLog → Outcome
  failed_open : Outcome
  payment_required : PaymentRequired → BillingDecisionLog → Outcome

pub record BillingState : Type 0 where
  pub tokens : Option (List TokenRow)
  pub warnings : List Emission
  -- `billingMiddlewareErrorTotal`, of the phase that is set
  pub errors : ℕ

abbrev pub is_insufficient : Option ℕ → ℕ → Bool
is_insufficient none price = true
is_insufficient (some balance) price = ltb balance price

abbrev pub log_of :
    Phase → String → PayerIdentity → ℕ → Option ℕ → Bool → Bool → Option Reason → BillingDecisionLog
log_of phase c payer price balance would acted reason =
    let (verified, claimed) = payer_log_fields payer.kind payer.ss58 in
    record {
      phase = phase;
      endpoint_class = c;
      payer_kind = payer.kind;
      payer_ss58 = verified;
      payer_ss58_claimed = claimed;
      price = price;
      balance = balance;
      would_402 = would;
      acted_402 = acted;
      reason = reason;
    }

abbrev pub reason_of : Option ℕ → PayerKind → Reason
reason_of (some balance) kind = insufficient_balance
reason_of none nobody = no_payer_identity
reason_of none api_key = balance_read_failed
reason_of none self_paid = balance_read_failed

-- Only a payer who was verified here is told who pays, and what the balance is.
abbrev pub scrubbed {ℓ} : {A : Type ℓ} → PayerKind → Option A → Option A
scrubbed api_key a = a
scrubbed self_paid a = none
scrubbed nobody a = none

abbrev pub hint_of : PayerKind → Hint
hint_of nobody = authenticate
hint_of api_key = treasury_exhausted
hint_of self_paid = top_up

-- `request_id` is drawn at random; `now` is in milliseconds.
unfoldable pub refusal : String → PayerIdentity → ℕ → Option ℕ → Text → ℕ → PaymentRequired
refusal c payer price balance request_id now = record {
  header = record {
    endpoint_class = c;
    amount = price;
    payer = scrubbed payer.kind payer.ss58;
    nonce = request_id;
    expires = now / 1000 + 300;
  };
  endpoint_class = c;
  price = price;
  balance = scrubbed payer.kind balance;
  payer = scrubbed payer.kind payer.ss58;
  request_id = request_id;
  expires = now / 1000 + 300;
  hint = hint_of payer.kind;
}

-- The decision on a price and a balance.
abbrev pub by_phase : Phase → String → PayerIdentity → ℕ → Option ℕ → Text → ℕ → Outcome
by_phase off c payer price balance request_id now = next none
by_phase measurement c payer price balance request_id now =
    next
      (some (log_of measurement c payer price balance (is_insufficient balance price) false none))
by_phase live c payer price balance request_id now =
    if not (is_insufficient balance price)
    then next (some (log_of live c payer price balance false false none))
    else payment_required (refusal c payer price balance request_id now)
        (log_of live c payer price balance true true (some (reason_of balance payer.kind)))

abbrev pub by_price : Phase → String → PayerIdentity → Option ℕ → Option ℕ → Text → ℕ → Outcome
by_price phase c payer none balance request_id now =
    next (some (log_of phase c payer 0 none false false (some pallet_not_present)))
by_price phase c payer (some price) balance request_id now =
    if price == 0 then next none else by_phase phase c payer price balance request_id now

abbrev pub or_none : Option ℕ → ℕ
or_none none = 0
or_none (some n) = n

abbrev pub fail_open : BillingState → Outcome × BillingState
fail_open st = (failed_open, record st { errors = st.errors + 1 })

abbrev pub by_quotes :
    Phase
    → String
    → PayerIdentity
    → Option (Option ℕ)
    → Option (Option ℕ)
    → Text
    → ℕ
    → BillingState
    → Outcome × BillingState
by_quotes phase c payer (some price) (some balance) request_id now st =
    (by_price phase c payer price balance request_id now, st)
by_quotes phase c payer (some price) none request_id now st = fail_open st
by_quotes phase c payer none balance request_id now st = fail_open st

module _ (hash_token : Text → String) (query_endpoint_price : String → ℕ → Option (Option ℕ))
    (query_billing_balance : Text → Option (Option ℕ)) (cfg : BillingConfig) where
  -- Without a payer nothing is asked.
  abbrev pub balance_of : Option Text → Option (Option ℕ)
  balance_of none = some none
  balance_of (some ss58) = query_billing_balance ss58

  abbrev pub by_class :
      Option String → BillingRequest → Text → ℕ → BillingState → Outcome × BillingState
  by_class none req request_id now st = fail_open st
  by_class (some c) req request_id now st =
      if is_unpriced c
      then (next none, st)
      else (let (payer, tokens) =
            identify_payer hash_token cfg.treasury req (now / 1000) st.tokens in
          by_quotes cfg.phase c payer (query_endpoint_price c (or_none req.content_length))
            (balance_of payer.ss58) request_id now (record st { tokens = tokens }))

  abbrev pub checked : BillingRequest → Text → ℕ → BillingState → Outcome × BillingState
  checked req request_id now st =
      let (c, warnings) = classify_endpoint req.method req.path now st.warnings in
      by_class c req request_id now (record st { warnings = warnings })

  abbrev pub by_setting : Phase → BillingRequest → Text → ℕ → BillingState → Outcome × BillingState
  by_setting off req request_id now st = (next none, st)
  by_setting measurement req request_id now st = checked req request_id now st
  by_setting live req request_id now st = checked req request_id now st

  unfoldable pub billing_402 : BillingRequest → Text → ℕ → BillingState → Outcome × BillingState
  billing_402 req request_id now st = by_setting cfg.phase req request_id now st
