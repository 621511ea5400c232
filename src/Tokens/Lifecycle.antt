-- ===== src/Tokens/Lifecycle.antt =====
-- The life of a token under the functions of src/api-tokens.ts.
use materios_gateway.Prelude.{
  ℕ, ◌≡◌, ◌≢◌, refl, ◌∙◌, String, str_eq, eq_iff, eq_refl, true, false, Option, none, some, List,
  [], ◌∷◌, ◌++◌, arith, any, is_some, if◌then◌else◌, Bool-cases, Option-cases, inl, inr,
}
use materios_gateway.Sql.{get, update}
use materios_gateway.Sql.Laws.{any-false-get}
use materios_gateway.Tokens.{
  TokenRow, IssueTokenInput, IssuedToken, VerifyResult, valid, invalid, Reason, malformed,
  token_prefix, starts_with, normalize_tenant, has_token, touch_token, bind_token_to_tenant,
  revoke_token, issue_token, verify_token,
}
use materios_gateway.Tokens.Base62.{to_base62}

-- What the table says of a token: nothing, its account, label and tenant, or that it is revoked.
pub data Life : Type 0 where
  unissued : Life
  live : String → Option String → Option String → Life
  dead : Life

abbrev pub life_of_row : Option TokenRow → Life
life_of_row none = unissued
life_of_row (some r) =
    if is_some r.revoked_at then dead else live r.account_ss58 r.label r.tenant_id

abbrev pub life : String → List TokenRow → Life
life h rows = life_of_row (get (has_token h) rows)

-- The abstract operations on one token's life.
abbrev pub rebound : Option String → Life → Life
rebound tenant unissued = unissued
rebound tenant (live account label old) = live account label (normalize_tenant tenant)
rebound tenant dead = dead

abbrev pub killed : Life → Life
killed unissued = unissued
killed (live account label tenant) = dead
killed dead = dead

-- Binding a token to a tenant changes the tenant of that token alone.
pub bind-life :
    (h : String) (tenant : Option String) (rows : List TokenRow) (h' : String)
    → life h' (bind_token_to_tenant h tenant rows).1
      ≡ (if str_eq h h' then rebound tenant (life h' rows) else life h' rows)
unfolding bind_token_to_tenant
bind-life h tenant [] h' = ground arith
bind-life h tenant (r ∷ rows) h' =
    ground (
      arith,
      eq_iff h h',
      eq_iff r.token_hash h,
      eq_iff r.token_hash h',
      bind-life h tenant rows h',
    )

-- A revocation ends the life of that token alone.
pub revoke-life :
    (h : String) (reason : Option String) (now : ℕ) (rows : List TokenRow) (h' : String)
    → life h' (revoke_token h reason now rows).1
      ≡ (if str_eq h h' then killed (life h' rows) else life h' rows)
unfolding revoke_token
revoke-life h reason now [] h' = ground arith
revoke-life h reason now (r ∷ rows) h' = ground (
  arith,
  eq_iff h h',
  eq_iff r.token_hash h,
  eq_iff r.token_hash h',
  revoke-life h reason now rows h',
)

life-touch :
    (h : String) (now : ℕ) (rows : List TokenRow) (h' : String)
    → life h' (update (has_token h) (touch_token now) rows) ≡ life h' rows
life-touch h now [] h' = refl
life-touch h now (r ∷ rows) h' = ground (arith, life-touch h now rows h')

-- What the routes do to the table.
pub data Op : Type 0 where
  issue : List ℕ → IssueTokenInput → ℕ → Op
  verify : List ℕ → ℕ → Op
  bind : String → Option String → Op
  revoke : String → Option String → ℕ → Op

-- What a verification replies to a token of a given life.
abbrev pub reply : String → Life → VerifyResult
reply h unissued = invalid Reason.unknown
reply h (live account label tenant) = valid account label h tenant
reply h dead = invalid Reason.revoked

starts_with-append : (ps cs : List ℕ) → starts_with (ps ++ cs) ps ≡ true
starts_with-append [] [] = refl
starts_with-append [] (c ∷ cs) = refl
starts_with-append (p ∷ ps) cs = ground (arith, starts_with-append ps cs)

module _ (hash_token : List ℕ → String) where
  -- A verification changes no token's life.
  pub verify-life :
      (plaintext : List ℕ) (now : ℕ) (rows : List TokenRow) (h' : String)
      → life h' (verify_token hash_token plaintext now rows).1 ≡ life h' rows
  unfolding verify_token
  verify-life plaintext now rows h' =
      elim (Option-cases (get (has_token (hash_token plaintext)) rows)) [
        | inl missing ↦ ground arith
        | inr (r, found) ↦ ground (arith, life-touch (hash_token plaintext) now rows h')
      ]

  -- The reply is a function of the life of the token that is presented: a text without the prefix
  -- is malformed, and any other is answered by the row of its hash.
  pub verify-reply :
      (plaintext : List ℕ) (now : ℕ) (rows : List TokenRow)
      → (verify_token hash_token plaintext now rows).0 ≡ (
          if starts_with plaintext token_prefix
          then reply (hash_token plaintext) (life (hash_token plaintext) rows)
          else invalid malformed)
  unfolding verify_token
  verify-reply plaintext now rows =
      elim (Option-cases (get (has_token (hash_token plaintext)) rows)) [
        | inl missing ↦ ground arith
        | inr (r, found) ↦ ground arith
      ]

  life-append :
      (r : TokenRow) (rows : List TokenRow) (h' : String)
      → any (has_token r.token_hash) rows ≡ false
      → is_some r.revoked_at ≡ false
      → life h' (rows ++ r ∷ [])
        ≡ (if str_eq r.token_hash h' then live r.account_ss58 r.label r.tenant_id else life h' rows)
  life-append r [] h' new fresh = ground arith
  life-append r (x ∷ rows) h' new fresh = ground (
    arith,
    eq_iff r.token_hash h',
    eq_iff x.token_hash h',
    eq_iff x.token_hash r.token_hash,
    life-append r rows h',
  )

  -- An issued token was unissued and is live for its account, label and tenant (none for an empty
  -- text); no other token's life changes. The reply's plaintext is the one that hashes to the row.
  pub issue-life :
      (raw : List ℕ) (input : IssueTokenInput) (now : ℕ) (rows : List TokenRow) (t : IssuedToken)
      (rows' : List TokenRow) (h' : String)
      → issue_token hash_token raw input now rows ≡ some (t, rows')
      → (life t.token_hash rows ≡ unissued)
        × (t.token_hash ≡ hash_token t.token)
        × (life h' rows' ≡ (
            if str_eq t.token_hash h'
            then live input.account_ss58 input.label (normalize_tenant input.tenant_id)
            else life h' rows))
  unfolding issue_token
  issue-life raw input now rows t rows' h' e = elim (Bool-cases (any (has_token h) rows)) [
    | inl clash ↦ absurd (ground arith)
    | inr new ↦
        let same_hash : h ≡ t.token_hash = ground arith in
        let same_rows : rows ++ row ∷ [] ≡ rows' = ground arith in
        (
          rw (← same_hash, any-false-get (has_token h) rows new),
          ground arith,
          rw (← same_hash, ← same_rows) (life-append row rows h' new refl),
        )
  ]
    where
      h : String
      h = hash_token (token_prefix ++ to_base62 raw)

      row : TokenRow
      row = record {
        token_hash = h;
        account_ss58 = input.account_ss58;
        label = input.label;
        created_at = now;
        last_used_at = none;
        revoked_at = none;
        revoked_reason = none;
        tenant_id = normalize_tenant input.tenant_id;
      }

  issue-prefix :
      (raw : List ℕ) (input : IssueTokenInput) (now : ℕ) (rows : List TokenRow) (t : IssuedToken)
      (rows' : List TokenRow)
      → issue_token hash_token raw input now rows ≡ some (t, rows')
      → starts_with t.token token_prefix ≡ true
  unfolding issue_token
  issue-prefix raw input now rows t rows' e =
      elim (Bool-cases (any (has_token (hash_token (token_prefix ++ to_base62 raw))) rows)) [
        | inl clash ↦ absurd (ground arith)
        | inr new ↦
            let same : token_prefix ++ to_base62 raw ≡ t.token = ground arith in
            rw (← same) (starts_with-append token_prefix (to_base62 raw))
      ]

  -- The plaintext of an issued token verifies at once, for the account, label and tenant of its
  -- issue.
  pub verify-issue :
      (raw : List ℕ) (input : IssueTokenInput) (now later : ℕ) (rows : List TokenRow)
      (t : IssuedToken) (rows' : List TokenRow)
      → issue_token hash_token raw input now rows ≡ some (t, rows')
      → (verify_token hash_token t.token later rows').0
        ≡ valid input.account_ss58 input.label t.token_hash (normalize_tenant input.tenant_id)
  verify-issue raw input now later rows t rows' e =
      let (_, hash_eq, after) = issue-life raw input now rows t rows' t.token_hash e in
      let after' : life t.token_hash rows'
          ≡ live input.account_ss58 input.label (normalize_tenant input.tenant_id) =
        rw (eq_refl t.token_hash) at after in
      let prefixed : starts_with t.token token_prefix ≡ true =
        issue-prefix raw input now rows t rows' e in
      verify-reply t.token later rows' ∙ rw (prefixed, ← hash_eq, after')

  abbrev rows_after : List TokenRow → Option (IssuedToken × List TokenRow) → List TokenRow
  rows_after rows none = rows
  rows_after rows (some (t, rows')) = rows'

  pub apply : Op → List TokenRow → List TokenRow
  apply (issue raw input now) rows = rows_after rows (issue_token hash_token raw input now rows)
  apply (verify plaintext now) rows = (verify_token hash_token plaintext now rows).1
  apply (bind h tenant) rows = (bind_token_to_tenant h tenant rows).1
  apply (revoke h reason now) rows = (revoke_token h reason now rows).1

  pub run : List Op → List TokenRow → List TokenRow
  run [] rows = rows
  run (op ∷ ops) rows = run ops (apply op rows)

  apply-dead :
      (op : Op) (h : String) (rows : List TokenRow)
      → life h rows ≡ dead
      → life h (apply op rows) ≡ dead
  unfolding apply
  apply-dead (issue raw input now) h rows d =
      elim (Option-cases (issue_token hash_token raw input now rows)) [
        | inl refused ↦ rw refused d
        | inr (made, e) ↦
            let (before, _, after) = issue-life raw input now rows made.0 made.1 h e in
            rw e (after ∙ ground (arith, eq_iff made.0.token_hash h))
      ]
  apply-dead (verify plaintext now) h rows d = verify-life plaintext now rows h ∙ d
  apply-dead (bind t tenant) h rows d = bind-life t tenant rows h ∙ ground arith
  apply-dead (revoke t reason now) h rows d = revoke-life t reason now rows h ∙ ground arith

  run-dead :
      (ops : List Op) (h : String) (rows : List TokenRow)
      → life h rows ≡ dead
      → life h (run ops rows) ≡ dead
  unfolding run
  run-dead [] h rows d = d
  run-dead (op ∷ ops) h rows d = run-dead ops h (apply op rows) (apply-dead op h rows d)

  -- Revocation is final: once a token that has a row is revoked, no sequence of issues, bindings,
  -- verifications and revocations makes it valid again; its plaintext, with the prefix, is always
  -- answered `revoked`.
  pub revoked_forever :
      (plaintext : List ℕ) (reason : Option String) (now : ℕ) (rows : List TokenRow) (ops : List Op)
      (later : ℕ)
      → starts_with plaintext token_prefix ≡ true
      → life (hash_token plaintext) rows ≢ unissued
      → (verify_token hash_token plaintext later
          (run ops (revoke_token (hash_token plaintext) reason now rows).1)).0
        ≡ invalid Reason.revoked
  revoked_forever plaintext reason now rows ops later prefixed known =
      let h = hash_token plaintext in
      let ended : life h (revoke_token h reason now rows).1 ≡ dead =
        revoke-life h reason now rows h ∙ rw (eq_refl h) (killed-known (life h rows) known) in
      verify-reply plaintext later _ ∙ rw (prefixed, run-dead ops h _ ended)
    where
      killed-known : (l : Life) → l ≢ unissued → killed l ≡ dead
      killed-known unissued ne = absurd (ne refl)
      killed-known (live account label tenant) ne = refl
      killed-known dead ne = refl
