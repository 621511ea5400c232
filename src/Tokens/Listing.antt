-- ===== src/Tokens/Listing.antt =====
-- Laws of `listTokens` (src/api-tokens.ts).
use materios_gateway.Prelude.{
  ◌≡◌, String, Bool, true, ◌&&◌, ◌||◌, Option, List, arith, any, All, ◌∙◌,
}
use materios_gateway.Sql.{select}
use materios_gateway.Sql.Laws.{All-select, any-select}
use materios_gateway.Sql.Order.{All-order_by, any-order_by, IsSorted, order_by-IsSorted}
use materios_gateway.Tokens.{TokenRow, is_live, of_account, newest_first, list_tokens}

-- The tokens that are asked for, of one account or of all, with the revoked ones or without.
abbrev pub is_asked : Option String → Bool → TokenRow → Bool
is_asked account include_revoked r = of_account account r && (include_revoked || is_live r)

-- Every listed row is one that is asked for; some listed row passes a test exactly when some row of
-- the table that is asked for passes it, so none is left out; and later rows of the list were not
-- created after earlier ones.
list_tokens_lem :
    (account : Option String) (include_revoked : Bool) (p : TokenRow → Bool) (rows : List TokenRow)
    → let listed = list_tokens account include_revoked rows in
      All (λ r. is_asked account include_revoked r ≡ true) listed
      × (any p listed ≡ any (λ r. is_asked account include_revoked r && p r) rows)
      × IsSorted newest_first listed
unfolding list_tokens
list_tokens_lem account include_revoked p rows =
    let asked = select (is_asked account include_revoked) rows in
    (
      All-order_by newest_first (λ r. is_asked account include_revoked r ≡ true) asked
          (All-select (is_asked account include_revoked) rows),
      (any-order_by newest_first p asked ∙ any-select (is_asked account include_revoked) p rows),
      order_by-IsSorted newest_first (λ a b h. ground arith) (λ a b c h k. ground arith) asked,
    )
