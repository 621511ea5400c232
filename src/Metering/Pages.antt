-- ===== src/Metering/Pages.antt =====
-- Laws of a page of `getMeteringSubmissions` (src/worker_bounds.ts).
use materios_gateway.Prelude.{
  ℕ, zero, suc, ◌≤◌, ◌≡◌, codes_leb_total, codes_leb_trans, Bool, true, false, ◌&&◌, List, [], ◌∷◌,
  arith, All, length, take,
}
use materios_gateway.Sql.{select, order_by}
use materios_gateway.Sql.Laws.{All-select}
use materios_gateway.Sql.Order.{IsSorted, order_by-IsSorted, All-order_by}
use materios_gateway.Metering.{
  MeteringSubmissionRow, MeteringQuery, in_order, in_window, after_cursor, get_metering_submissions,
}

length-take-le {ℓ} : {A : Type ℓ} (n : ℕ) (xs : List A) → length (take n xs) ≤ n
length-take-le zero xs = omega arith
length-take-le (suc n) [] = omega arith
length-take-le (suc n) (x ∷ xs) = omega (arith, length-take-le n xs)

All-take {ℓ κ} : {A : Type ℓ} (P : A → Type κ) (n : ℕ) (xs : List A) → All P xs → All P (take n xs)
All-take P zero xs h = tt
All-take P (suc n) [] h = tt
All-take P (suc n) (x ∷ xs) (first, rest) = (first, All-take P n xs rest)

IsSorted-take {ℓ} :
    {A : Type ℓ} (le : A → A → Bool) (n : ℕ) (xs : List A)
    → IsSorted le xs
    → IsSorted le (take n xs)
IsSorted-take le zero xs h = tt
IsSorted-take le (suc n) [] h = tt
IsSorted-take le (suc n) (x ∷ xs) (first, rest) =
    (All-take (λ y. le x y ≡ true) n xs first, IsSorted-take le n xs rest)

module _ {R : Type 0} where
  pub total : (a b : MeteringSubmissionRow R) → in_order a b ≡ false → in_order b a ≡ true
  total a b h = ground (arith, codes_leb_total a.content_hash b.content_hash)

  pub trans :
      (a b c : MeteringSubmissionRow R)
      → in_order a b ≡ true
      → in_order b c ≡ true
      → in_order a c ≡ true
  trans a b c h k = ground (arith, codes_leb_trans a.content_hash b.content_hash c.content_hash)

  -- A page has at most `limit` rows, each of the tenant, in the window and behind the cursor, in the
  -- order of their times and, for equal times, of their content hashes.
  get_metering_submissions_lem :
      (q : MeteringQuery) (rows : List (MeteringSubmissionRow R))
      → (length (get_metering_submissions q rows) ≤ q.limit)
        × (All
              (λ r. (in_window q r && after_cursor q.after r) ≡ true)
              (get_metering_submissions q rows)
            × IsSorted in_order (get_metering_submissions q rows))
  unfolding get_metering_submissions
  get_metering_submissions_lem q rows =
      let wanted = select (λ r. in_window q r && after_cursor q.after r) rows in
      (
        length-take-le q.limit (order_by in_order wanted),
        (
          All-take (λ r. (in_window q r && after_cursor q.after r) ≡ true) q.limit
              (order_by in_order wanted)
              (All-order_by in_order (λ r. (in_window q r && after_cursor q.after r) ≡ true) wanted
                (All-select (λ r. in_window q r && after_cursor q.after r) rows)),
          IsSorted-take in_order q.limit (order_by in_order wanted)
              (order_by-IsSorted in_order total trans wanted),
        ),
      )
