-- ===== src/Metering/Strict.antt =====
-- The order of the records of `getMeteringSubmissions` (src/worker_bounds.ts), and cursors in it.
use materios_gateway.Prelude.{
  any-append, ◌≡◌, refl, ◌∙◌, Text, text_eq, text_eq_iff, codes_leb, codes_leb_total,
  codes_leb_antisymm, codes_leb_refl, Bool, true, false, ◌&&◌, Option, none, some, List, [], ◌∷◌,
  ◌++◌, arith, any, All, Bool-cases, inl, inr,
}
use materios_gateway.Sql.{select, order_by, insert_by}
use materios_gateway.Sql.Order.{any-order_by, All-insert_by}
use materios_gateway.Metering.{
  MeteringSubmissionRow, Cursor, in_order, behind, after_cursor, record_metering_submission,
}
use materios_gateway.Metering.Pages.{total, trans}

module _ {R : Type 0} where
  abbrev pub cursor_of : MeteringSubmissionRow R → Cursor
  cursor_of r = record { period_start_ms = r.period_start_ms; content_hash = r.content_hash }

  -- The cursor behind the last row of a page, the old one if the page is empty.
  abbrev pub last_cursor : Option Cursor → List (MeteringSubmissionRow R) → Option Cursor
  last_cursor c [] = c
  last_cursor c (r ∷ rs) = last_cursor (some (cursor_of r)) rs

  -- Every row stands strictly before the rows behind it.
  abbrev pub IsStrict : List (MeteringSubmissionRow R) → Type 0
  IsStrict [] = Unit
  IsStrict (r ∷ rs) = All (λ s. behind (cursor_of r) s ≡ true) rs × IsStrict rs

  behind_trans :
      (a b c : MeteringSubmissionRow R)
      → behind (cursor_of a) b ≡ true
      → behind (cursor_of b) c ≡ true
      → behind (cursor_of a) c ≡ true
  behind_trans a b c h k = ground (
    arith,
    trans a b c,
    total b a,
    total c b,
    codes_leb_total a.content_hash c.content_hash,
    codes_leb_antisymm a.content_hash c.content_hash,
  )

  behind_self : (a : MeteringSubmissionRow R) → behind (cursor_of a) a ≡ false
  behind_self a = ground (arith, codes_leb_refl a.content_hash)

  behind-asym :
      (a b : MeteringSubmissionRow R)
      → behind (cursor_of a) b ≡ true
      → behind (cursor_of b) a ≡ false
  behind-asym a b h = elim (Bool-cases (behind (cursor_of b) a)) [
    | inr e ↦ e
    | inl e ↦ absurd (cc (behind_trans a b a h e, behind_self a))
  ]

  -- A row before another is not behind the last of the rows from that on.
  last-after :
      (p r : MeteringSubmissionRow R) (rs : List (MeteringSubmissionRow R))
      → behind (cursor_of p) r ≡ true
      → IsStrict (r ∷ rs)
      → after_cursor (last_cursor (some (cursor_of r)) rs) p ≡ false
  last-after p r [] h strict = behind-asym p r h
  last-after p r (s ∷ rs) h ((next, _), strict) =
      last-after p s rs (behind_trans p r s h next) strict

  last_self :
      (p : MeteringSubmissionRow R) (ps : List (MeteringSubmissionRow R))
      → IsStrict (p ∷ ps)
      → after_cursor (last_cursor (some (cursor_of p)) ps) p ≡ false
  last_self p [] h = behind_self p
  last_self p (r ∷ rs) ((next, _), strict) = last-after p r rs next strict

  select-none_left :
      (q : MeteringSubmissionRow R → Bool) (xs : List (MeteringSubmissionRow R))
      → All (λ r. q r ≡ true) xs
      → select q xs ≡ xs
  select-none_left q [] h = refl
  select-none_left q (x ∷ xs) (first, rest) = rw (first, select-none_left q xs rest) refl

  IsStrict-tail : (ps s : List (MeteringSubmissionRow R)) → IsStrict (ps ++ s) → IsStrict ps
  IsStrict-tail [] s h = tt
  IsStrict-tail (p ∷ ps) s (first, rest) = (All-front _ ps s first, IsStrict-tail ps s rest)
    where
      All-front :
          (P : MeteringSubmissionRow R → Type 0) (xs ys : List (MeteringSubmissionRow R))
          → All P (xs ++ ys)
          → All P xs
      All-front P [] ys h = tt
      All-front P (x ∷ xs) ys (first, rest) = (first, All-front P xs ys rest)

  -- What is behind the cursor of a page in a strict list are the rows after the page.
  select-after_row :
      (c : MeteringSubmissionRow R) (ps s : List (MeteringSubmissionRow R))
      → IsStrict (c ∷ (ps ++ s))
      → select (after_cursor (last_cursor (some (cursor_of c)) ps)) (ps ++ s) ≡ s
  select-after_row c [] s (first, strict) = select-none_left (behind (cursor_of c)) s first
  select-after_row c (p ∷ ps) s (first, strict) =
      rw (last_self p ps (IsStrict-tail (p ∷ ps) s strict), select-after_row p ps s strict) refl

  always : (xs : List (MeteringSubmissionRow R)) → All (λ r. after_cursor none r ≡ true) xs
  always [] = tt
  always (x ∷ xs) = (refl, always xs)

  pub select-after_page :
      (ps s : List (MeteringSubmissionRow R))
      → IsStrict (ps ++ s)
      → select (after_cursor (last_cursor none ps)) (ps ++ s) ≡ s
  select-after_page [] s strict = select-none_left (after_cursor none) s (always s)
  select-after_page (p ∷ ps) s strict =
      rw (last_self p ps (IsStrict-tail (p ∷ ps) s strict), select-after_row p ps s strict) refl

  pub last_cursor-append :
      (c : Option Cursor) (ps qs : List (MeteringSubmissionRow R))
      → last_cursor (last_cursor c ps) qs ≡ last_cursor c (ps ++ qs)
  last_cursor-append c [] qs = refl
  last_cursor-append c (p ∷ ps) qs = last_cursor-append (some (cursor_of p)) ps qs

  pub select-select :
      (p q : MeteringSubmissionRow R → Bool) (xs : List (MeteringSubmissionRow R))
      → select (λ r. p r && q r) xs ≡ select q (select p xs)
  select-select p q [] = refl
  select-select p q (x ∷ xs) = ground (arith, select-select p q xs)

  -- The content hash is a key of the log.
  abbrev pub HasHashes : List (MeteringSubmissionRow R) → Type 0
  HasHashes [] = Unit
  HasHashes (r ∷ rows) =
      (any (λ s. text_eq s.content_hash r.content_hash) rows ≡ false) × HasHashes rows

  any-select-false :
      (p q : MeteringSubmissionRow R → Bool) (xs : List (MeteringSubmissionRow R))
      → any q xs ≡ false
      → any q (select p xs) ≡ false
  any-select-false p q [] h = refl
  any-select-false p q (x ∷ xs) h = ground (arith, any-select-false p q xs)

  pub HasHashes-select :
      (p : MeteringSubmissionRow R → Bool) (rows : List (MeteringSubmissionRow R))
      → HasHashes rows
      → HasHashes (select p rows)
  HasHashes-select p [] h = tt
  HasHashes-select p (r ∷ rows) (first, rest) = elim (Bool-cases (p r)) [
    | inl e ↦ rw e (
      any-select-false p (λ s. text_eq s.content_hash r.content_hash) rows first,
      HasHashes-select p rows rest,
    )
    | inr e ↦ rw e (HasHashes-select p rows rest)
  ]

  in_order-behind :
      (a x : MeteringSubmissionRow R)
      → in_order a x ≡ true
      → text_eq x.content_hash a.content_hash ≡ false
      → behind (cursor_of a) x ≡ true
  in_order-behind a x h differ = elim (Bool-cases (codes_leb x.content_hash a.content_hash)) [
    | inr e ↦ ground arith
    | inl e ↦ elim (Bool-cases (codes_leb a.content_hash x.content_hash)) [
      | inr d ↦ ground arith
      | inl d ↦
          let same = codes_leb_antisymm x.content_hash a.content_hash e d in
          absurd (cc ((text_eq_iff x.content_hash a.content_hash).1 same, differ))
    ]
  ]

  All-behind :
      (a x : MeteringSubmissionRow R) (xs : List (MeteringSubmissionRow R))
      → behind (cursor_of a) x ≡ true
      → All (λ s. behind (cursor_of x) s ≡ true) xs
      → All (λ s. behind (cursor_of a) s ≡ true) xs
  All-behind a x [] h k = tt
  All-behind a x (s ∷ xs) h (first, rest) = (behind_trans a x s h first, All-behind a x xs h rest)

  insert_by-IsStrict :
      (a : MeteringSubmissionRow R) (xs : List (MeteringSubmissionRow R))
      → any (λ s. text_eq s.content_hash a.content_hash) xs ≡ false
      → IsStrict xs
      → IsStrict (insert_by in_order a xs)
  insert_by-IsStrict a [] fresh h = (tt, tt)
  insert_by-IsStrict a (x ∷ xs) fresh (first, strict) = elim (Bool-cases (in_order a x)) [
    | inl e ↦
        let next = in_order-behind a x e (ground arith) in
        rw e ((next, All-behind a x xs next first), (first, strict))
    | inr e ↦
        let next =
          in_order-behind x a (total a x e)
            (text_eq-flip x.content_hash a.content_hash (ground arith)) in
        rw e (
          All-insert_by in_order (λ s. behind (cursor_of x) s ≡ true) a xs next first,
          insert_by-IsStrict a xs (ground arith) strict,
        )
  ]
    where
      text_eq-flip : (s t : Text) → text_eq s t ≡ false → text_eq t s ≡ false
      text_eq-flip s t h = ground (arith, text_eq_iff s t, text_eq_iff t s)

  pub order_by-IsStrict :
      (xs : List (MeteringSubmissionRow R)) → HasHashes xs → IsStrict (order_by in_order xs)
  order_by-IsStrict [] h = tt
  order_by-IsStrict (x ∷ xs) (first, rest) =
      insert_by-IsStrict x (order_by in_order xs)
        (any-order_by in_order (λ s. text_eq s.content_hash x.content_hash) xs ∙ first)
        (order_by-IsStrict xs rest)

  -- Recording a submission keeps content hashes keys of the log.
  record_metering_submission-HasHashes :
      (r : MeteringSubmissionRow R) (rows : List (MeteringSubmissionRow R))
      → HasHashes rows
      → HasHashes (record_metering_submission r rows)
  unfolding record_metering_submission
  record_metering_submission-HasHashes r rows h =
      elim (Bool-cases (any (λ s. text_eq s.content_hash r.content_hash) rows)) [
        | inl old ↦ rw old h
        | inr new ↦ rw new (HasHashes-snoc r rows new h)
      ]
    where
      text_eq-flip : (s t : Text) → text_eq s t ≡ false → text_eq t s ≡ false
      text_eq-flip s t h = ground (arith, text_eq_iff s t, text_eq_iff t s)

      HasHashes-snoc :
          (r : MeteringSubmissionRow R) (rows : List (MeteringSubmissionRow R))
          → any (λ s. text_eq s.content_hash r.content_hash) rows ≡ false
          → HasHashes rows
          → HasHashes (rows ++ r ∷ [])
      HasHashes-snoc r [] new h = (refl, tt)
      HasHashes-snoc r (x ∷ rows) new (first, rest) = (
        any-append (λ s. text_eq s.content_hash x.content_hash) rows (r ∷ [])
            ∙ (let differ = text_eq-flip x.content_hash r.content_hash (ground arith) in
                ground (arith, first, differ)),
        HasHashes-snoc r rows (ground arith) rest,
      )
