-- ===== src/Quota/Registry/Bindings.antt =====
-- Laws of `getBindingForAura`, `recordUsage` and `getUsage` (src/quota.ts).
use mathlib.Core.Option
use materios_gateway.Prelude.{
  ℕ, ◌+◌, ◌≡◌, refl, ◌∙◌, String, str_eq, eq_iff, text_leb, text_leb_total, text_leb_trans,
  text_leb_refl, eq_refl, sym, Option-cases, Bool, true, ◌&&◌, some, List, [], ◌∷◌, arith, any, All,
  if◌then◌else◌, inl, inr,
}
use materios_gateway.Sql.{select, order_by, head?}
use materios_gateway.Sql.Laws.{any-select}
use materios_gateway.Sql.Order.{head-order_by_least, any-order_by}
use materios_gateway.Quota.Tables.{ApiKey}
use materios_gateway.Quota.Registry.{
  bound_to, by_hash, get_binding_for_aura, record_usage, get_usage, UsageSnapshot, AuraBinding,
}

-- The binding that is returned is that of an enabled row bound to the aura key, and of all such
-- rows it has the least key hash; so the answer does not depend on the order of the rows.
get_binding_least :
    (aura : String) (keys : List ApiKey) (b : AuraBinding)
    → get_binding_for_aura aura keys ≡ some b
    → (any (λ k. bound_to aura k && (str_eq k.key_hash b.key_hash && str_eq k.name b.name)) keys
        ≡ true)
      × All (λ k. text_leb b.key_hash k.key_hash ≡ true) (select (bound_to aura) keys)
unfolding get_binding_for_aura
get_binding_least aura keys b e = elim (Option-cases (head? (order_by by_hash bound))) [
  | inl missing ↦ absurd (ground arith)
  | inr (k, found) ↦
      let hash_eq : k.key_hash ≡ b.key_hash = ground arith in
      let name_eq : k.name ≡ b.name = ground arith in
      rw (← hash_eq, ← name_eq)
        (
          sym (any-select (bound_to aura) (is_row k) keys)
              ∙ (sym (any-order_by by_hash (is_row k) bound)
                  ∙ head-any (is_row k) (order_by by_hash bound) found
                      (rw (eq_refl k.key_hash, eq_refl k.name) refl)),
          head-order_by_least by_hash (λ a b. text_leb_total a.key_hash b.key_hash)
              (λ a b c. text_leb_trans a.key_hash b.key_hash c.key_hash) bound
              (λ a. text_leb_refl a.key_hash) found,
        )
]
  where
    bound : List ApiKey
    bound = select (bound_to aura) keys

    is_row : ApiKey → ApiKey → Bool
    is_row k r = str_eq r.key_hash k.key_hash && str_eq r.name k.name

    head-any :
        (p : ApiKey → Bool) (xs : List ApiKey) {k : ApiKey}
        → head? xs ≡ some k
        → p k ≡ true
        → any p xs ≡ true
    head-any p [] e h = absurd (ground arith)
    head-any p (x ∷ xs) {k} e h = let same : x ≡ k = ground arith in rw same (rw h)

abbrev pub counted : ℕ → Bool → ℕ → UsageSnapshot → UsageSnapshot
counted bytes receipt now u = record u {
  lifetime_receipts = u.lifetime_receipts + (if receipt then 1 else 0);
  lifetime_bytes = u.lifetime_bytes + bytes;
  last_used_at = some now;
}

-- A call of `recordUsage` adds the bytes and the receipt to its key's lifetime counters, changes no
-- other key's and does nothing for an unknown key.
get_usage-record_usage :
    (h : String) (bytes : ℕ) (receipt : Bool) (now : ℕ) (h' : String) (keys : List ApiKey)
    → get_usage h' (record_usage h bytes receipt now keys) ≡ (
        if str_eq h h'
        then Option.map (counted bytes receipt now) (get_usage h' keys)
        else get_usage h' keys)
unfolding get_usage record_usage
get_usage-record_usage h bytes receipt now h' [] = ground arith
get_usage-record_usage h bytes receipt now h' (k ∷ keys) = ground (
  arith,
  eq_iff h h',
  eq_iff k.key_hash h,
  eq_iff k.key_hash h',
  get_usage-record_usage h bytes receipt now h' keys,
)
