-- ===== src/Billing/Check/Laws.antt =====
-- When the billing check refuses a request, and what it tells (src/middleware/billing-402.ts).
use materios_gateway.Prelude.{
  ℕ, ◌/◌, ◌<◌, ◌≡◌, ◌≢◌, ◌↔◌, refl, ap, eq_iff, String, Text, true, false, Option, none, some,
  arith, ◌==◌, Bool-cases, Option-cases, inl, inr,
}
use materios_gateway.Billing.Classify.{classify_endpoint, is_unpriced}
use materios_gateway.Billing.Payer.{BillingRequest, PayerIdentity, identify_payer}
use materios_gateway.Billing.Check.{
  Phase, off, measurement, live, BillingConfig, BillingState, PaymentRequired, Outcome, next,
  failed_open, payment_required, is_insufficient, by_phase, by_quotes, checked, by_setting,
  billing_402, or_none, balance_of, refusal,
}

-- The reply 402, if there is one.
abbrev pub refusal_of : Outcome → Option PaymentRequired
refusal_of (next log) = none
refusal_of failed_open = none
refusal_of (payment_required r log) = some r

abbrev pub IsPriced : String → Type 0
IsPriced c = (c ≢ "free") × (c ≢ "admin")

is_unpriced-IsPriced : (c : String) → is_unpriced c ≡ false → IsPriced c
is_unpriced-IsPriced c h =
    (λ e. absurd (ground (arith, eq_iff c "free")), λ e. absurd (ground (arith, eq_iff c "admin")))

IsPriced-is_unpriced : (c : String) → IsPriced c → is_unpriced c ≡ false
IsPriced-is_unpriced c (free, admin) = ground (arith, eq_iff c "free", eq_iff c "admin")

-- The balance is missing or below the price.
abbrev pub IsShort : Option ℕ → ℕ → Type 0
IsShort none price = Unit {0}
IsShort (some balance) price = balance < price

IsShort-is_insufficient : (b : Option ℕ) (p : ℕ) → IsShort b p → is_insufficient b p ≡ true
IsShort-is_insufficient none p h = refl
IsShort-is_insufficient (some b) p h = ground arith

is_insufficient-IsShort : (b : Option ℕ) (p : ℕ) → is_insufficient b p ≡ true → IsShort b p
is_insufficient-IsShort none p h = tt
is_insufficient-IsShort (some b) p h = ground arith

-- A live check whose queries succeed refuses a price that the balance does not cover.
pub record Refused (phase : Phase) (c : String) (payer : PayerIdentity)
    (price balance : Option (Option ℕ)) (request_id : Text) (now : ℕ) (r : PaymentRequired)
    : Type 0 where
  pub in_force : phase ≡ live
  pub amount : ℕ
  pub covered : Option ℕ
  pub priced : price ≡ some (some amount)
  pub positive : 0 < amount
  pub read : balance ≡ some covered
  pub short : IsShort covered amount
  pub told : r ≡ refusal c payer amount covered request_id now
  pub class_told : r.endpoint_class ≡ c
  pub price_told : r.price ≡ amount
  pub amount_told : r.header.amount ≡ amount

by_phase-live :
    (phase : Phase) (c : String) (payer : PayerIdentity) (price : ℕ) (balance : Option ℕ)
    (id : Text) (now : ℕ) (r : PaymentRequired)
    → refusal_of (by_phase phase c payer price balance id now) ≡ some r
    → (phase ≡ live)
      × (is_insufficient balance price ≡ true)
      × (r ≡ refusal c payer price balance id now)
by_phase-live off c payer price balance id now r e = absurd (cc)
by_phase-live measurement c payer price balance id now r e = absurd (cc)
by_phase-live live c payer price balance id now r e =
    elim (Bool-cases (is_insufficient balance price)) [
      | inl short ↦ (refl, short, ground arith)
      | inr enough ↦ absurd (ground arith)
    ]

by_quotes-Refused :
    (phase : Phase) (c : String) (payer : PayerIdentity) (price balance : Option (Option ℕ))
    (id : Text) (now : ℕ) (st : BillingState) (r : PaymentRequired)
    → refusal_of (by_quotes phase c payer price balance id now st).0 ≡ some r
    → Refused phase c payer price balance id now r
unfolding refusal
by_quotes-Refused phase c payer none balance id now st r e = absurd (cc)
by_quotes-Refused phase c payer (some price) none id now st r e = absurd (cc)
by_quotes-Refused phase c payer (some none) (some b) id now st r e = absurd (cc)
by_quotes-Refused phase c payer (some (some p)) (some b) id now st r e =
    elim (Bool-cases (p == 0)) [
      | inl zero_price ↦ absurd (ground arith)
      | inr priced ↦
          let (is_live, lacks, same) = by_phase-live phase c payer p b id now r (rw priced at e) in
          record {
            in_force = is_live;
            amount = p;
            covered = b;
            priced = refl;
            positive = ground arith;
            read = refl;
            short = is_insufficient-IsShort b p lacks;
            told = same;
            class_told = ap (λ x. x.endpoint_class) same;
            price_told = ap (λ x. x.price) same;
            amount_told = ap (λ x. x.header.amount) same;
          }
    ]

by_phase-short :
    (c : String) (payer : PayerIdentity) (price : ℕ) (balance : Option ℕ) (id : Text) (now : ℕ)
    → is_insufficient balance price ≡ true
    → refusal_of (by_phase live c payer price balance id now)
      ≡ some (refusal c payer price balance id now)
by_phase-short c payer price balance id now short = rw short refl

Refused-by_quotes :
    (phase : Phase) (c : String) (payer : PayerIdentity) (price balance : Option (Option ℕ))
    (id : Text) (now : ℕ) (st : BillingState) (r : PaymentRequired)
    → Refused phase c payer price balance id now r
    → refusal_of (by_quotes phase c payer price balance id now st).0 ≡ some r
Refused-by_quotes phase c payer price balance id now st r h =
    let counted : (h.amount == 0) ≡ false = ground (arith, h.positive) in
    rw (h.in_force, h.priced, h.read, h.told)
      (rw counted (
        by_phase-short c payer h.amount h.covered id now
          (IsShort-is_insufficient h.covered h.amount h.short)))

module _ (hash_token : Text → String) (query_endpoint_price : String → ℕ → Option (Option ℕ))
    (query_billing_balance : Text → Option (Option ℕ)) (cfg : BillingConfig) where
  abbrev pub class_of : BillingRequest → ℕ → BillingState → Option String
  class_of req now st = (classify_endpoint req.method req.path now st.warnings).0

  abbrev pub payer_of : BillingRequest → ℕ → BillingState → PayerIdentity
  payer_of req now st = (identify_payer hash_token cfg.treasury req (now / 1000) st.tokens).0

  -- A live check, a class that is priced, and a balance that the queries give and that is short.
  abbrev pub Refuses : BillingRequest → Text → ℕ → BillingState → PaymentRequired → Type 0
  Refuses req id now st r =
      (c : String) × (class_of req now st ≡ some c)
      × IsPriced c
      × Refused cfg.phase c (payer_of req now st)
          (query_endpoint_price c (or_none req.content_length))
          (balance_of hash_token query_endpoint_price query_billing_balance cfg
            (payer_of req now st).ss58)
          id now r

  abbrev check : BillingRequest → Text → ℕ → BillingState → Outcome × BillingState
  check = checked hash_token query_endpoint_price query_billing_balance cfg

  abbrev setting : Phase → BillingRequest → Text → ℕ → BillingState → Outcome × BillingState
  setting = by_setting hash_token query_endpoint_price query_billing_balance cfg

  checked-Refuses :
      (req : BillingRequest) (id : Text) (now : ℕ) (st : BillingState) (r : PaymentRequired)
      → refusal_of (check req id now st).0 ≡ some r
      → Refuses req id now st r
  checked-Refuses req id now st r e = elim (Option-cases (class_of req now st)) [
    | inl thrown ↦ absurd (ground arith)
    | inr (c, found) ↦ elim (Bool-cases (is_unpriced c)) [
      | inl free ↦ absurd (ground arith)
      | inr priced ↦ (
        c,
        found,
        is_unpriced-IsPriced c priced,
        by_quotes-Refused _ _ _ _ _ _ _ _ _ (simp (found, priced) at e),
      )
    ]
  ]

  Refuses-checked :
      (req : BillingRequest) (id : Text) (now : ℕ) (st : BillingState) (r : PaymentRequired)
      → Refuses req id now st r
      → refusal_of (check req id now st).0 ≡ some r
  Refuses-checked req id now st r (c, found, priced, h) =
      simp (found, IsPriced-is_unpriced c priced) (Refused-by_quotes _ _ _ _ _ _ _ _ _ h)

  setting-Refuses :
      (phase : Phase) (req : BillingRequest) (id : Text) (now : ℕ) (st : BillingState)
      (r : PaymentRequired)
      → refusal_of (setting phase req id now st).0 ≡ some r
      → Refuses req id now st r
  setting-Refuses off req id now st r e = absurd (cc)
  setting-Refuses measurement req id now st r e = checked-Refuses req id now st r e
  setting-Refuses live req id now st r e = checked-Refuses req id now st r e

  setting-checked :
      (phase : Phase) (req : BillingRequest) (id : Text) (now : ℕ) (st : BillingState)
      {o : Option PaymentRequired}
      → phase ≡ live
      → refusal_of (check req id now st).0 ≡ o
      → refusal_of (setting phase req id now st).0 ≡ o
  setting-checked off req id now st e h = absurd (cc)
  setting-checked measurement req id now st e h = h
  setting-checked live req id now st e h = h

  -- The check replies 402 exactly when it is live, the class of the request is priced, both queries
  -- succeed, the price is positive and the payer's balance is missing or below it; the reply has the
  -- class and the price in its body, and the price in its header. In the other phases, on an error
  -- and for the classes `free` and `admin` the request goes on.
  pub billing_402_iff :
      (req : BillingRequest) (id : Text) (now : ℕ) (st : BillingState) (r : PaymentRequired)
      → (refusal_of
            (billing_402 hash_token query_endpoint_price query_billing_balance cfg req id now st).0
          ≡ some r)
        ↔ Refuses req id now st r
  unfolding billing_402
  billing_402_iff req id now st r = (
    λ h. setting-Refuses cfg.phase req id now st r h,
    λ h. setting-checked cfg.phase req id now st h.3.in_force (Refuses-checked req id now st r h),
  )
