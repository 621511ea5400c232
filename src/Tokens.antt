-- ===== src/Tokens.antt =====
-- Bearer tokens (src/api-tokens.ts): the table api_tokens and the functions over it. A plaintext is
-- the list of its characters' codes. `hash_token` is the platform's SHA-256 in hex. The 32 random
-- bytes of a token are an argument.
pub mod Base62
pub mod Lifecycle
pub mod Listing
mod Tests
use materios_gateway.Prelude.{
  ℕ, String, str_eq, codes, Bool, true, false, ◌&&◌, ◌||◌, not, Option, none, some, List, [], ◌∷◌,
  ◌++◌, any, is_some, leb, ◌==◌, if◌then◌else◌,
}
use materios_gateway.Sql.{select, get, update, order_by}
use materios_gateway.Tokens.Base62.{to_base62}

pub record TokenRow : Type 0 where
  pub token_hash : String
  pub account_ss58 : String
  pub label : Option String
  pub created_at : ℕ
  pub last_used_at : Option ℕ
  pub revoked_at : Option ℕ
  pub revoked_reason : Option String
  pub tenant_id : Option String

pub record IssueTokenInput : Type 0 where
  pub account_ss58 : String
  pub label : Option String
  pub tenant_id : Option String

pub record IssuedToken : Type 0 where
  pub token : List ℕ
  pub token_hash : String
  pub account_ss58 : String
  pub label : Option String
  pub tenant_id : Option String
  pub created_at : ℕ

pub data Reason : Type 0 where
  malformed unknown revoked : Reason

pub data VerifyResult : Type 0 where
  valid : String → Option String → String → Option String → VerifyResult
  invalid : Reason → VerifyResult

abbrev pub token_prefix : List ℕ
token_prefix = codes "matra_"

-- `s.startsWith(p)`
abbrev pub starts_with : List ℕ → List ℕ → Bool
starts_with cs [] = true
starts_with [] (p ∷ ps) = false
starts_with (c ∷ cs) (p ∷ ps) = c == p && starts_with cs ps

-- A text that is not empty, or NULL.
abbrev pub normalize_tenant : Option String → Option String
normalize_tenant none = none
normalize_tenant (some t) = if str_eq t "" then none else some t

-- `WHERE token_hash = ?`
abbrev pub has_token : String → TokenRow → Bool
has_token h r = str_eq r.token_hash h

abbrev pub is_live : TokenRow → Bool
is_live r = not (is_some r.revoked_at)

-- The result says whether a row was changed.
pub bind_token_to_tenant : String → Option String → List TokenRow → Bool × List TokenRow
bind_token_to_tenant h tenant rows = (
  any (has_token h) rows,
  update (has_token h) (λ r. record r { tenant_id = normalize_tenant tenant }) rows,
)

abbrev pub mark_revoked : Option String → ℕ → TokenRow → TokenRow
mark_revoked reason now r = record r { revoked_at = some now; revoked_reason = reason }

pub revoke_token : String → Option String → ℕ → List TokenRow → Bool × List TokenRow
revoke_token h reason now rows = (
  any (λ r. has_token h r && is_live r) rows,
  update (λ r. has_token h r && is_live r) (mark_revoked reason now) rows,
)

abbrev pub of_account : Option String → TokenRow → Bool
of_account none r = true
of_account (some a) r = str_eq a "" || str_eq r.account_ss58 a

-- `ORDER BY created_at DESC`
abbrev pub newest_first : TokenRow → TokenRow → Bool
newest_first a b = leb b.created_at a.created_at

pub list_tokens : Option String → Bool → List TokenRow → List TokenRow
list_tokens account include_revoked rows =
    order_by newest_first
      (select (λ r. of_account account r && (include_revoked || is_live r)) rows)

abbrev pub touch_token : ℕ → TokenRow → TokenRow
touch_token now r = record r { last_used_at = some now }

module _ (hash_token : List ℕ → String) where
  -- `none` is the error that SQLite raises where the hash has a row.
  pub issue_token :
      List ℕ → IssueTokenInput → ℕ → List TokenRow → Option (IssuedToken × List TokenRow)
  issue_token raw input now rows =
      let token = token_prefix ++ to_base62 raw in
      let h = hash_token token in
      let tenant = normalize_tenant input.tenant_id in
      if any (has_token h) rows
      then none
      else some (
        record {
          token = token;
          token_hash = h;
          account_ss58 = input.account_ss58;
          label = input.label;
          tenant_id = tenant;
          created_at = now;
        },
        rows
            ++ record {
              token_hash = h;
              account_ss58 = input.account_ss58;
              label = input.label;
              created_at = now;
              last_used_at = none;
              revoked_at = none;
              revoked_reason = none;
              tenant_id = tenant;
            }
              ∷ [],
      )

  -- The reply for the row that was read, and the table with the time of use.
  abbrev pub verify_row :
      String → ℕ → Option TokenRow → List TokenRow → VerifyResult × List TokenRow
  verify_row h now none rows = (invalid unknown, rows)
  verify_row h now (some r) rows =
      if is_some r.revoked_at
      then (invalid revoked, rows)
      else (valid r.account_ss58 r.label h r.tenant_id, update (has_token h) (touch_token now) rows)

  unfoldable pub verify_token : List ℕ → ℕ → List TokenRow → VerifyResult × List TokenRow
  verify_token plaintext now rows =
      let h = hash_token plaintext in
      if starts_with plaintext token_prefix
      then verify_row h now (get (has_token h) rows) rows
      else (invalid malformed, rows)
