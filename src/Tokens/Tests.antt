-- ===== src/Tokens/Tests.antt =====
-- Runs of the token functions on concrete tables, and the theorems at such inputs.
use materios_gateway.Prelude.{
  ℕ, ◌≡◌, ◌≢◌, refl, String, codes, false, Option, none, some, List, [], ◌∷◌, ◌++◌, arith, length,
}
use materios_gateway.Merkle.{zeros}
use materios_gateway.Tokens.{
  TokenRow, IssueTokenInput, IssuedToken, valid, invalid, Reason, token_prefix,
  bind_token_to_tenant, revoke_token, issue_token, verify_token, normalize_tenant,
}
use materios_gateway.Tokens.Base62.{to_base62}
use materios_gateway.Tokens.Base62.Laws.{Is32Bytes, to_base62-injective}
use materios_gateway.Tokens.Lifecycle.{
  verify, bind, run, live, unissued, verify-issue, revoked_forever,
}

-- A digest of plaintexts that tells them apart by their length.
abbrev length_digest : List ℕ → String
length_digest [] = "empty"
length_digest (c ∷ []) = "one"
length_digest (c ∷ (d ∷ cs)) = "many"

abbrev row : String → TokenRow
row h = record {
  token_hash = h;
  account_ss58 = "5Alice";
  label = some "laptop";
  created_at = 7;
  last_used_at = none;
  revoked_at = none;
  revoked_reason = none;
  tenant_id = none;
}

abbrev table : List TokenRow
table = row "many" ∷ row "one" ∷ []

abbrev plaintext : List ℕ
plaintext = codes "matra_x"

live_reply :
    (verify_token length_digest plaintext 9 table).0 ≡ valid "5Alice" (some "laptop") "many" none
unfolding verify_token
live_reply = refl

bound_reply :
    (verify_token length_digest plaintext 9 (bind_token_to_tenant "many" (some "acme") table).1).0
    ≡ valid "5Alice" (some "laptop") "many" (some "acme")
unfolding verify_token bind_token_to_tenant
bound_reply = refl

revoked_twice : (revoke_token "many" none 5 (revoke_token "many" none 4 table).1).0 ≡ false
unfolding revoke_token
revoked_twice = refl

live-ne-unissued : (a : String) (l t : Option String) → live a l t ≢ unissued
live-ne-unissued a l t e = absurd (cc)

revoked_forever_example :
    (verify_token length_digest plaintext 99 (
      run length_digest
        (verify plaintext 10 ∷ bind "many" (some "acme") ∷ [])
        (revoke_token (length_digest plaintext) (some "lost") 8 table).1)).0
    ≡ invalid Reason.revoked
revoked_forever_example =
    revoked_forever length_digest plaintext (some "lost") 8 table
      (verify plaintext 10 ∷ bind "many" (some "acme") ∷ []) 99 refl
      (live-ne-unissued "5Alice" (some "laptop") none)

abbrev input : IssueTokenInput
input = record { account_ss58 = "5Bob"; label = none; tenant_id = some "" }

abbrev zero_token : List ℕ
zero_token = token_prefix ++ to_base62 (zeros 32)

abbrev issued : IssuedToken
issued = record {
  token = zero_token;
  token_hash = "many";
  account_ss58 = "5Bob";
  label = none;
  tenant_id = none;
  created_at = 3;
}

abbrev issued_rows : List TokenRow
issued_rows = record (row "many") { account_ss58 = "5Bob"; label = none; created_at = 3 } ∷ []

issue_runs : issue_token length_digest (zeros 32) input 3 [] ≡ some (issued, issued_rows)
unfolding issue_token
issue_runs = refl

verify-issue_example :
    (verify_token length_digest zero_token 4 issued_rows).0
    ≡ valid "5Bob" none "many" (normalize_tenant (some ""))
verify-issue_example =
    verify-issue length_digest (zeros 32) input 3 4 [] issued issued_rows issue_runs

zeros-Is32Bytes : Is32Bytes (zeros 32)
zeros-Is32Bytes = ground arith

to_base62-injective_example : (length (to_base62 (zeros 32)) ≡ 43) × (zeros 32 ≡ zeros 32)
to_base62-injective_example =
    to_base62-injective (zeros 32) (zeros 32) zeros-Is32Bytes zeros-Is32Bytes refl
