-- ===== src/Billing/Check/Privacy.antt =====
-- What a reply 402 tells (src/middleware/billing-402.ts).
use mathlib.Core.Path.{subst}
use materios_gateway.Prelude.{
  ℕ, ◌/◌, ◌≡◌, ◌≢◌, ◌⊎◌, refl, String, Text, codes, Option, none, some, List, arith, ◌∙◌, ap, sym,
  Option-cases, inl, inr,
}
use materios_gateway.Tokens.{TokenRow, VerifyResult, valid, invalid, verify_token}
use materios_gateway.Auth.Upload.{given}
use materios_gateway.Auth.Resolve.{bearer_text, prefixed}
use materios_gateway.Billing.Classify.{to_upper}
use materios_gateway.Billing.Classify.Laws.{classify_endpoint-reads}
use materios_gateway.Billing.Payer.{
  BillingRequest, PayerIdentity, PayerKind, api_key, self_paid, nobody, identify_payer,
  claimed_payer, claimed_of, by_verified, by_bearer,
}
use materios_gateway.Billing.Check.{
  BillingConfig, BillingState, PaymentRequired, refusal, scrubbed, hint_of, billing_402,
}
use materios_gateway.Billing.Check.Laws.{Refuses, payer_of, refusal_of, billing_402_iff}

refusal-unverified :
    (c : String) (payer : PayerIdentity) (p : ℕ) (b : Option ℕ) (id : Text) (now : ℕ)
    → payer.kind ≢ api_key
    → ((refusal c payer p b id now).payer ≡ none)
      × ((refusal c payer p b id now).balance ≡ none)
      × ((refusal c payer p b id now).header.payer ≡ none)
unfolding refusal
refusal-unverified c payer p b id now h = go payer.kind refl
  where
    go :
        (k : PayerKind)
        → payer.kind ≡ k
        → (scrubbed payer.kind payer.ss58 ≡ none)
          × (scrubbed payer.kind b ≡ none)
          × (scrubbed payer.kind payer.ss58 ≡ none)
    go api_key e = absurd (h e)
    go self_paid e = rw e (refl, refl, refl)
    go nobody e = rw e (refl, refl, refl)

refusal-same :
    (c c' : String) (payer payer' : PayerIdentity) (p p' : ℕ) (b b' : Option ℕ) (id : Text)
    (now : ℕ)
    → payer.kind ≢ api_key
    → payer'.kind ≢ api_key
    → payer.kind ≡ payer'.kind
    → c ≡ c'
    → p ≡ p'
    → refusal c payer p b id now ≡ refusal c' payer' p' b' id now
unfolding refusal
refusal-same c c' payer payer' p p' b b' id now h h' j e k =
    let l = refusal-unverified c payer p b id now h in
    let l' = refusal-unverified c' payer' p' b' id now h' in
    let hint : hint_of payer.kind ≡ hint_of payer'.kind = ap hint_of j in ground arith

-- Whether a payer is verified, decided.
api_key-cases : (k : PayerKind) → (k ≡ api_key) ⊎ (k ≢ api_key)
api_key-cases api_key = inl refl
api_key-cases self_paid = inr (λ e. cc)
api_key-cases nobody = inr (λ e. cc)

claimed_of-kind : (sig ss58 : Option Text) → (claimed_of sig ss58).kind ≢ api_key
claimed_of-kind none ss58 = λ e. cc
claimed_of-kind (some sig) none = λ e. cc
claimed_of-kind (some sig) (some ss58) = ground arith

claimed_payer-kind : (req : BillingRequest) → (claimed_payer req).kind ≢ api_key
unfolding claimed_payer
claimed_payer-kind req =
    claimed_of-kind (given req.x_402_payment_signature) (given req.x_402_payer_ss58)

module _ (hash_token : Text → String) (cfg : BillingConfig) (req : BillingRequest) (now : ℕ) where
  -- A live bearer token of the request.
  abbrev pub Presents : Option (List TokenRow) → Type 0
  Presents tokens =
      (token : Text) × (rows : List TokenRow) × (account : String) × (label : Option String)
      × (h : String) × (tenant : Option String) × (prefixed (bearer_text req.authorization)
          ≡ some token)
      × (tokens ≡ some rows)
      × ((verify_token hash_token token now rows).0 ≡ valid account label h tenant)

  by_verified-api_key :
      (v : VerifyResult × List TokenRow)
      → (by_verified cfg.treasury req v).0.kind ≡ api_key
      → (account : String) × (label : Option String) × (h : String) × (tenant : Option String)
        × (v.0 ≡ valid account label h tenant)
        × ((by_verified cfg.treasury req v).0.ss58 ≡ given cfg.treasury)
  by_verified-api_key (valid account label h tenant, rows) e =
      (account, label, h, tenant, refl, refl)
  by_verified-api_key (invalid reason, rows) e = absurd (claimed_payer-kind req e)

  by_bearer-api_key :
      (bearer : Option Text) (tokens : Option (List TokenRow))
      → (by_bearer hash_token cfg.treasury req now bearer tokens).0.kind ≡ api_key
      → (token : Text) × (rows : List TokenRow) × (account : String) × (label : Option String)
        × (h : String) × (tenant : Option String) × (bearer ≡ some token)
        × (tokens ≡ some rows)
        × ((verify_token hash_token token now rows).0 ≡ valid account label h tenant)
        × ((by_bearer hash_token cfg.treasury req now bearer tokens).0.ss58 ≡ given cfg.treasury)
  by_bearer-api_key none tokens e = absurd (claimed_payer-kind req e)
  by_bearer-api_key (some token) none e = absurd (claimed_payer-kind req e)
  by_bearer-api_key (some token) (some rows) e =
      let (account, label, h, tenant, v, paid) =
        by_verified-api_key (verify_token hash_token token now rows) e in
      (token, rows, account, label, h, tenant, refl, refl, v, paid)

  identify_payer-api_key :
      (tokens : Option (List TokenRow))
      → (identify_payer hash_token cfg.treasury req now tokens).0.kind ≡ api_key
      → Presents tokens
        × ((identify_payer hash_token cfg.treasury req now tokens).0.ss58 ≡ given cfg.treasury)
  unfolding identify_payer
  identify_payer-api_key tokens e =
      let (token, rows, account, label, h, tenant, shown, opened, v, paid) =
        by_bearer-api_key (prefixed (bearer_text req.authorization)) tokens e in
      ((token, rows, account, label, h, tenant, shown, opened, v), paid)

refusal-verified :
    (c : String) (payer : PayerIdentity) (p : ℕ) (b : Option ℕ) (id : Text) (now : ℕ)
    → payer.kind ≡ api_key
    → ((refusal c payer p b id now).payer ≡ payer.ss58)
      × ((refusal c payer p b id now).header.payer ≡ payer.ss58)
unfolding refusal
refusal-verified c payer p b id now h =
    let same : scrubbed payer.kind payer.ss58 ≡ payer.ss58 = ap (λ k. scrubbed k payer.ss58) h in
    (same, same)

module _ (hash_token : Text → String) (query_endpoint_price : String → ℕ → Option (Option ℕ))
    (query_billing_balance : Text → Option (Option ℕ)) (cfg : BillingConfig) where
  abbrev reply : BillingRequest → Text → ℕ → BillingState → Option PaymentRequired
  reply req id now st =
      refusal_of
        (billing_402 hash_token query_endpoint_price query_billing_balance cfg req id now st).0

  abbrev refuses :
      (req : BillingRequest) (id : Text) (now : ℕ) (st : BillingState) (r : PaymentRequired)
      → reply req id now st ≡ some r
      → Refuses hash_token query_endpoint_price query_billing_balance cfg req id now st r
  refuses req id now st r =
      (billing_402_iff hash_token query_endpoint_price query_billing_balance cfg req id now st r).0

  -- A reply 402 names no payer and no balance, in its header and in its body, unless the request
  -- presents a bearer token that is in the table and live; then the payer it names is the treasury.
  pub billing_402_reveals :
      (req : BillingRequest) (id : Text) (now : ℕ) (st : BillingState) (r : PaymentRequired)
      → reply req id now st ≡ some r
      → ((r.payer ≡ none) × (r.balance ≡ none) × (r.header.payer ≡ none))
        ⊎ (Presents hash_token cfg req (now / 1000) st.tokens
            × (r.payer ≡ given cfg.treasury)
            × (r.header.payer ≡ given cfg.treasury))
  billing_402_reveals req id now st r e =
      let (c, found, priced, h) = refuses req id now st r e in
      elim (api_key-cases
        (payer_of hash_token query_endpoint_price query_billing_balance cfg req now st).kind) [
          | inr unverified ↦ inl (rw h.told (refusal-unverified _ _ _ _ _ _ unverified))
          | inl verified ↦
              let (shown, paid) =
                identify_payer-api_key hash_token cfg req (now / 1000) st.tokens verified in
              let (body, header) = refusal-verified _ _ _ _ id now verified in
              inr (
                shown,
                ap (λ x. x.payer) h.told ∙ body ∙ paid,
                ap (λ x. x.header.payer) h.told ∙ header ∙ paid,
              )
        ]

  -- Two requests with one method, path and length that are both refused, and whose payers are of one
  -- kind and not verified (both claimed, or both none), get the same reply, its hint included,
  -- whatever payers they claim and whatever these own.
  pub billing_402_alike :
      (req req' : BillingRequest) (id : Text) (now : ℕ) (st : BillingState) (r r' : PaymentRequired)
      → req.method ≡ req'.method
      → req.path ≡ req'.path
      → req.content_length ≡ req'.content_length
      → (payer_of hash_token query_endpoint_price query_billing_balance cfg req now st).kind
        ≢ api_key
      → (payer_of hash_token query_endpoint_price query_billing_balance cfg req now st).kind
        ≡ (payer_of hash_token query_endpoint_price query_billing_balance cfg req' now st).kind
      → reply req id now st ≡ some r
      → reply req' id now st ≡ some r'
      → r ≡ r'
  billing_402_alike req req' id now st r r' same_method same_path same_length h alike e e' =
      let h' = subst (λ k. k ≢ api_key) alike h in
      let (c, found, priced, k) = refuses req id now st r e in
      let (c', found', priced', k') = refuses req' id now st r' e' in
      let same_class : c ≡ c' = cc in
      let same_price : k.amount ≡ k'.amount = cc (k.priced, k'.priced) in
      k.told ∙ refusal-same _ _ _ _ _ _ _ _ id now h h' alike same_class same_price ∙ sym k'.told

  -- A GET request is refused at most on the billing query itself.
  pub billing_402-reads :
      (req : BillingRequest) (id : Text) (now : ℕ) (st : BillingState)
      → to_upper req.method ≡ codes "GET"
      → req.path ≢ codes "/billing/usage"
      → reply req id now st ≡ none
  billing_402-reads req id now st get other = elim (Option-cases (reply req id now st)) [
    | inl passed ↦ passed
    | inr (r, e) ↦
        let (c, found, priced, k) = refuses req id now st r e in
        elim (classify_endpoint-reads req.method req.path now st.warnings c get other found) [
          | inl free ↦ absurd (priced.0 free)
          | inr admin ↦ absurd (priced.1 admin)
        ]
  ]
