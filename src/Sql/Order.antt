-- ===== src/Sql/Order.antt =====
-- Laws of `ORDER BY`.
use mathlib.Core.Path.{subst}
use materios_gateway.Prelude.{
  ◌≡◌, refl, sym, Bool, true, false, some, List, [], ◌∷◌, arith, any, All, if◌then◌else◌,
  Bool-cases, inl, inr,
}
use materios_gateway.Sql.{count, select, insert_by, order_by, head?}

module _ {ℓ} {A : Type ℓ} (le : A → A → Bool) where
  pub count-insert_by :
      (p : A → Bool) (a : A) (xs : List A) → count p (insert_by le a xs) ≡ count p (a ∷ xs)
  count-insert_by p a [] = refl
  count-insert_by p a (x ∷ xs) = ground (arith, count-insert_by p a xs)

  -- As many rows pass a test in the ordered table as in the table.
  pub count-order_by : (p : A → Bool) (xs : List A) → count p (order_by le xs) ≡ count p xs
  count-order_by p [] = refl
  count-order_by p (x ∷ xs) =
      ground (arith, count-insert_by p x (order_by le xs), count-order_by p xs)

  pub All-insert_by {κ} :
      (P : A → Type κ) (a : A) (xs : List A) → P a → All P xs → All P (insert_by le a xs)
  All-insert_by P a [] p h = (p, tt)
  All-insert_by P a (x ∷ xs) p (first, rest) = elim (Bool-cases (le a x)) [
    | inl e ↦ rw e (p, (first, rest))
    | inr e ↦ rw e (first, All-insert_by P a xs p rest)
  ]

  pub All-order_by {κ} : (P : A → Type κ) (xs : List A) → All P xs → All P (order_by le xs)
  All-order_by P [] h = tt
  All-order_by P (x ∷ xs) (first, rest) =
      All-insert_by P x (order_by le xs) first (All-order_by P xs rest)

  All-of_insert_by {κ} :
      (P : A → Type κ) (a : A) (xs : List A) → All P (insert_by le a xs) → P a × All P xs
  All-of_insert_by P a [] h = (h.0, tt)
  All-of_insert_by P a (x ∷ xs) h = elim (Bool-cases (le a x)) [
    | inl e ↦ let here : insert_by le a (x ∷ xs) ≡ a ∷ (x ∷ xs) = rw e in subst (All P) here h
    | inr e ↦
        let later : insert_by le a (x ∷ xs) ≡ x ∷ insert_by le a xs = rw e in
        let (first, rest) = subst (All P) later h in
        let (p, others) = All-of_insert_by P a xs rest in (p, (first, others))
  ]

  pub All-of_order_by {κ} : (P : A → Type κ) (xs : List A) → All P (order_by le xs) → All P xs
  All-of_order_by P [] h = tt
  All-of_order_by P (x ∷ xs) h =
      let (first, rest) = All-of_insert_by P x (order_by le xs) h in
      (first, All-of_order_by P xs rest)

  any-insert_by : (p : A → Bool) (a : A) (xs : List A) → any p (insert_by le a xs) ≡ any p (a ∷ xs)
  any-insert_by p a [] = refl
  any-insert_by p a (x ∷ xs) = ground (arith, any-insert_by p a xs)

  pub any-order_by : (p : A → Bool) (xs : List A) → any p (order_by le xs) ≡ any p xs
  any-order_by p [] = refl
  any-order_by p (x ∷ xs) = ground (arith, any-insert_by p x (order_by le xs), any-order_by p xs)

  abbrev pub IsSorted : List A → Type ℓ
  IsSorted [] = Unit
  IsSorted (x ∷ xs) = All (λ y. le x y ≡ true) xs × IsSorted xs

  module _ (total : (a b : A) → le a b ≡ false → le b a ≡ true)
      (trans : (a b c : A) → le a b ≡ true → le b c ≡ true → le a c ≡ true) where
    All-le_trans :
        (a b : A) (xs : List A)
        → le a b ≡ true
        → All (λ y. le b y ≡ true) xs
        → All (λ y. le a y ≡ true) xs
    All-le_trans a b [] e h = tt
    All-le_trans a b (x ∷ xs) e (first, rest) = (trans a b x e first, All-le_trans a b xs e rest)

    insert_by-IsSorted : (a : A) (xs : List A) → IsSorted xs → IsSorted (insert_by le a xs)
    insert_by-IsSorted a [] h = (tt, tt)
    insert_by-IsSorted a (x ∷ xs) (first, rest) = elim (Bool-cases (le a x)) [
      | inl e ↦ rw e ((e, All-le_trans a x xs e first), (first, rest))
      | inr e ↦ rw e (
        All-insert_by (λ y. le x y ≡ true) a xs (total a x e) first,
        insert_by-IsSorted a xs rest,
      )
    ]

    pub order_by-IsSorted : (xs : List A) → IsSorted (order_by le xs)
    order_by-IsSorted [] = tt
    order_by-IsSorted (x ∷ xs) = insert_by-IsSorted x (order_by le xs) (order_by-IsSorted xs)

    insert_by-least :
        (a : A) (xs : List A) → All (λ y. le a y ≡ true) xs → insert_by le a xs ≡ a ∷ xs
    insert_by-least a [] h = refl
    insert_by-least a (x ∷ xs) h = rw h.0

    All-select_of {κ} :
        (P : A → Type κ) (q : A → Bool) (xs : List A) → All P xs → All P (select q xs)
    All-select_of P q [] h = tt
    All-select_of P q (x ∷ xs) (first, rest) = elim (Bool-cases (q x)) [
      | inl e ↦
          let taken : select q (x ∷ xs) ≡ x ∷ select q xs = rw e in
          subst (All P) (sym taken) (first, All-select_of P q xs rest)
      | inr e ↦
          let passed : select q (x ∷ xs) ≡ select q xs = rw e in
          subst (All P) (sym passed) (All-select_of P q xs rest)
    ]

    select-insert_by :
        (q : A → Bool) (a : A) (xs : List A)
        → IsSorted xs
        → select q (insert_by le a xs) ≡ (if q a then insert_by le a (select q xs) else select q xs)
    select-insert_by q a [] h = refl
    select-insert_by q a (x ∷ xs) (first, rest) = elim (Bool-cases (le a x)) [
      | inl e ↦
          let least =
            insert_by-least a (select q (x ∷ xs))
              (All-select_of (λ y. le a y ≡ true) q (x ∷ xs) (e, All-le_trans a x xs e first)) in
          ground (arith, least)
      | inr e ↦ ground (arith, select-insert_by q a xs rest)
    ]

    -- Selecting from the ordered table is ordering the selection.
    pub select-order_by :
        (q : A → Bool) (xs : List A) → select q (order_by le xs) ≡ order_by le (select q xs)
    select-order_by q [] = refl
    select-order_by q (x ∷ xs) =
        ground (
          arith,
          select-insert_by q x (order_by le xs) (order_by-IsSorted xs),
          select-order_by q xs,
        )

    -- The first row of the ordered table comes before every row of the table, or is it.
    pub head-order_by_least :
        (xs : List A) {a : A}
        → ((x : A) → le x x ≡ true)
        → head? (order_by le xs) ≡ some a
        → All (λ x. le a x ≡ true) xs
    head-order_by_least xs {a} self e =
        All-of_order_by (λ x. le a x ≡ true) xs (go (order_by le xs) (order_by-IsSorted xs) e)
      where
        go : (ys : List A) → IsSorted ys → head? ys ≡ some a → All (λ x. le a x ≡ true) ys
        go [] h e = tt
        go (y ∷ ys) h e =
            let same : y ≡ a = ground arith in
            subst (λ z. All (λ x. le z x ≡ true) (y ∷ ys)) same (self y, h.0)
