-- ===== src/Metering/Complete.antt =====
-- A client that follows the cursors of `getMeteringSubmissions` (src/worker_bounds.ts).
use mathlib.Core.Path.{subst}
use materios_gateway.Prelude.{
  ℕ, zero, suc, ◌+◌, ◌<◌, ◌≡◌, refl, sym, ap, ◌∙◌, Option, none, some, List, [], ◌∷◌, ◌++◌, arith,
  length, ltb, ltb→lt, ltb→lt, take, drop, length-append, take-append-drop, if◌then◌else◌,
  Bool-cases, inl, inr,
}
use materios_gateway.Sql.{select, order_by}
use materios_gateway.Sql.Order.{select-order_by}
use materios_gateway.Metering.{
  MeteringSubmissionRow, MeteringQuery, in_order, in_window, after_cursor, get_metering_submissions,
}
use materios_gateway.Metering.Pages.{total, trans}
use materios_gateway.Metering.Strict.{
  last_cursor, IsStrict, last_cursor-append, select-select, select-after_page, order_by-IsStrict,
  HasHashes, HasHashes-select,
}

module _ {R : Type 0} where
  abbrev pub append_to :
      List (MeteringSubmissionRow R)
      → Option (List (MeteringSubmissionRow R))
      → Option (List (MeteringSubmissionRow R))
  append_to page none = none
  append_to page (some rest) = some (page ++ rest)

  -- A client that asks for a page, and for the next one as long as the page is full; `none` where
  -- the fuel runs out.
  unfoldable pub fetch_all :
      ℕ → MeteringQuery → List (MeteringSubmissionRow R) → Option (List (MeteringSubmissionRow R))
  fetch_all zero q rows = none
  fetch_all (suc fuel) q rows =
      let page = get_metering_submissions q rows in
      let rest = fetch_all fuel (record q { after = last_cursor q.after page }) rows in
      if ltb (length page) q.limit then some page else append_to page rest

  -- The rows of the window, in their order.
  abbrev pub window_of :
      MeteringQuery → List (MeteringSubmissionRow R) → List (MeteringSubmissionRow R)
  window_of q rows = order_by in_order (select (in_window q) rows)

  page_of_window :
      (q : MeteringQuery) (rows : List (MeteringSubmissionRow R))
      → get_metering_submissions q rows
        ≡ take q.limit (select (after_cursor q.after) (window_of q rows))
  unfolding get_metering_submissions
  page_of_window q rows = ap (take q.limit) (
      ap (order_by in_order) (select-select (in_window q) (after_cursor q.after) rows)
      ∙ sym
          (select-order_by in_order total trans (after_cursor q.after) (select (in_window q) rows)))

  take-short :
      (n : ℕ) (xs : List (MeteringSubmissionRow R)) → length (take n xs) < n → take n xs ≡ xs
  take-short zero xs h = absurd (omega arith)
  take-short (suc n) [] h = refl
  take-short (suc n) (x ∷ xs) h = rw (take-short n xs (omega arith)) refl

  fetch_from :
      (fuel : ℕ) (q : MeteringQuery) (rows ps s : List (MeteringSubmissionRow R))
      → window_of q rows ≡ ps ++ s
      → IsStrict (ps ++ s)
      → q.after ≡ last_cursor none ps
      → 0 < q.limit
      → length s < fuel
      → fetch_all fuel q rows ≡ some s
  unfolding fetch_all
  fetch_from zero q rows ps s split strict at some_limit enough = absurd (omega arith)
  fetch_from (suc fuel) q rows ps s split strict at some_limit enough =
      let behind_it : select (after_cursor q.after) (window_of q rows) ≡ s =
        rw (at, split) (select-after_page ps s strict) in
      let page : get_metering_submissions q rows ≡ take q.limit s =
        page_of_window q rows ∙ ap (take q.limit) behind_it in
      elim (Bool-cases (ltb (length (take q.limit s)) q.limit)) [
        | inl last ↦ rw (page, last) (ap some (take-short q.limit s (ltb→lt _ _ last)))
        | inr full ↦
            let sizes : length (take q.limit s) + length (drop q.limit s) ≡ length s =
              sym (length-append (take q.limit s) (drop q.limit s))
              ∙ ap length (take-append-drop q.limit s) in
            let whole : (ps ++ take q.limit s) ++ drop q.limit s ≡ ps ++ s =
              append_assoc ps (take q.limit s) (drop q.limit s)
              ∙ ap (λ t. ps ++ t) (take-append-drop q.limit s) in
            let rest =
              fetch_from fuel (record q { after = last_cursor q.after (take q.limit s) }) rows
                (ps ++ take q.limit s) (drop q.limit s) (split ∙ sym whole)
                (subst IsStrict (sym whole) strict)
                (ap (λ c. last_cursor c (take q.limit s)) at
                  ∙ last_cursor-append none ps (take q.limit s))
                some_limit (ground arith) in
            rw (page, full, rest) (ap some (take-append-drop q.limit s))
      ]
    where
      append_assoc :
          (xs ys zs : List (MeteringSubmissionRow R)) → (xs ++ ys) ++ zs ≡ xs ++ (ys ++ zs)
      append_assoc [] ys zs = refl
      append_assoc (x ∷ xs) ys zs = rw (append_assoc xs ys zs) refl

  -- If content hashes are keys of the log and a page may hold a row, a client that starts without a
  -- cursor and follows the cursors gets exactly the rows of its tenant and window, each once and in
  -- order, over whatever pages; one request more than there are rows is enough.
  pub fetch_all_complete :
      (fuel : ℕ) (q : MeteringQuery) (rows : List (MeteringSubmissionRow R))
      → HasHashes rows
      → q.after ≡ none
      → 0 < q.limit
      → length (window_of q rows) < fuel
      → fetch_all fuel q rows ≡ some (window_of q rows)
  fetch_all_complete fuel q rows keys start some_limit enough =
      fetch_from fuel q rows [] (window_of q rows) refl
        (order_by-IsStrict (select (in_window q) rows) (HasHashes-select (in_window q) rows keys))
        start some_limit enough
