-- ===== src/Sql/Laws.antt =====
-- Laws of the statements: what each leaves of a count, of a row and of a property of all rows.
use mathlib.Core.Option
use mathlib.Core.Path.{subst}
use materios_gateway.Prelude.{
  ◌+◌, ◌≤◌, ◌≡◌, refl, sym, ◌&&◌, Bool, true, false, none, some, List, [], ◌∷◌, ◌++◌, arith, any,
  All, All-append, if◌then◌else◌, Bool-cases, inl, inr,
}
use materios_gateway.Sql.{select, get, count, delete, update, insert_or_ignore, insert_or_replace}

module _ {ℓ} {A : Type ℓ} where
  pub count-append : (p : A → Bool) (xs ys : List A) → count p (xs ++ ys) ≡ count p xs + count p ys
  count-append p [] ys = omega arith
  count-append p (x ∷ xs) ys = omega (arith, count-append p xs ys)

  pub count-delete-le : (p q : A → Bool) (xs : List A) → count p (delete q xs) ≤ count p xs
  count-delete-le p q [] = omega arith
  count-delete-le p q (x ∷ xs) = ground (arith, count-delete-le p q xs)

  -- An update that leaves a test alone leaves its count alone.
  pub count-update :
      (p q : A → Bool) (f : A → A) (xs : List A)
      → ((x : A) → p (f x) ≡ p x)
      → count p (update q f xs) ≡ count p xs
  count-update p q f [] h = refl
  count-update p q f (x ∷ xs) h = ground (arith, count-update p q f xs h, h x)

  -- One that can only make a test fail lowers its count.
  pub count-update-le :
      (p q : A → Bool) (f : A → A) (xs : List A)
      → ((x : A) → p (f x) ≡ true → p x ≡ true)
      → count p (update q f xs) ≤ count p xs
  count-update-le p q f [] h = omega arith
  count-update-le p q f (x ∷ xs) h = ground (arith, count-update-le p q f xs h, h x)

  pub count-insert_or_replace-le :
      (p same : A → Bool) (a : A) (xs : List A)
      → count p (insert_or_replace same a xs) ≤ count p xs + (if p a then 1 else 0)
  count-insert_or_replace-le p same a xs =
      omega (arith, count-append p (delete same xs) (a ∷ []), count-delete-le p same xs)

  pub any-get : (p : A → Bool) (xs : List A) → any p xs ≡ true → (a : A) × (get p xs ≡ some a)
  any-get p (x ∷ xs) h = elim (Bool-cases (p x)) [
    | inl e ↦ (x, rw e)
    | inr e ↦ let (a, found) = any-get p xs (ground arith) in (a, rw e found)
  ]
  any-get p [] h = absurd (cc)

  pub any-false-get : (p : A → Bool) (xs : List A) → any p xs ≡ false → get p xs ≡ none
  any-false-get p [] h = refl
  any-false-get p (x ∷ xs) h = ground (arith, any-false-get p xs)

  pub get-append_none :
      (p : A → Bool) (xs ys : List A) → get p xs ≡ none → get p (xs ++ ys) ≡ get p ys
  get-append_none p [] ys h = refl
  get-append_none p (x ∷ xs) ys h = ground (arith, get-append_none p xs ys)

  pub get-append_some :
      (p : A → Bool) (xs ys : List A) {a : A} → get p xs ≡ some a → get p (xs ++ ys) ≡ some a
  get-append_some p [] ys h = cc
  get-append_some p (x ∷ xs) ys {a} h = ground (arith, get-append_some p xs ys {a = a})

  pub get_sound : (p : A → Bool) (xs : List A) {a : A} → get p xs ≡ some a → p a ≡ true
  get_sound p [] h = cc
  get_sound p (x ∷ xs) {a} h = ground (arith, get_sound p xs {a = a})

  -- An update of the rows that a key selects, which keeps the key, reaches the row that is read.
  pub get-update_self :
      (p : A → Bool) (f : A → A) (xs : List A)
      → ((x : A) → p x ≡ true → p (f x) ≡ true)
      → get p (update p f xs) ≡ Option.map f (get p xs)
  get-update_self p f [] h = refl
  get-update_self p f (x ∷ xs) h = ground (arith, get-update_self p f xs h, h x)

  -- An update elsewhere, which makes no other row answer to the key, does not.
  pub get-update_other :
      (p q : A → Bool) (f : A → A) (xs : List A)
      → ((x : A) → q x ≡ true → (p x ≡ false) × (p (f x) ≡ false))
      → get p (update q f xs) ≡ get p xs
  get-update_other p q f [] h = refl
  get-update_other p q f (x ∷ xs) h = ground (arith, get-update_other p q f xs h, h x)

  pub get-delete_other :
      (p q : A → Bool) (xs : List A)
      → ((x : A) → q x ≡ true → p x ≡ false)
      → get p (delete q xs) ≡ get p xs
  get-delete_other p q [] h = refl
  get-delete_other p q (x ∷ xs) h = ground (arith, get-delete_other p q xs h, h x)

  pub get-insert_or_ignore_other :
      (p same : A → Bool) (a : A) (xs : List A)
      → p a ≡ false
      → get p (insert_or_ignore same a xs) ≡ get p xs
  get-insert_or_ignore_other p same a xs h = elim (Bool-cases (any same xs)) [
    | inl e ↦ rw e
    | inr e ↦ rw e (get-append_ne xs)
  ]
    where
      get-append_ne : (ys : List A) → get p (ys ++ a ∷ []) ≡ get p ys
      get-append_ne [] = rw h
      get-append_ne (y ∷ ys) = ground (arith, get-append_ne ys)

module _ {ℓ} {A : Type ℓ} where
  pub All-of_select :
      (p q : A → Bool) (xs : List A)
      → All (λ k. q k ≡ true) (select p xs)
      → All (λ k. p k ≡ true → q k ≡ true) xs
  All-of_select p q [] h = tt
  All-of_select p q (x ∷ xs) h = elim (Bool-cases (p x)) [
    | inl e ↦
        let taken : select p (x ∷ xs) ≡ x ∷ select p xs = rw e in
        let (first, rest) = subst (All (λ k. q k ≡ true)) taken h in
        ((λ _. first), All-of_select p q xs rest)
    | inr e ↦
        let passed : select p (x ∷ xs) ≡ select p xs = rw e in
        ((λ d. absurd (cc (d, e))), All-of_select p q xs (subst (All (λ k. q k ≡ true)) passed h))
  ]

  pub any-select : (p q : A → Bool) (xs : List A) → any q (select p xs) ≡ any (λ k. p k && q k) xs
  any-select p q [] = refl
  any-select p q (x ∷ xs) = ground (arith, any-select p q xs)

  -- Every row that is selected passes the test.
  pub All-select : (p : A → Bool) (xs : List A) → All (λ x. p x ≡ true) (select p xs)
  All-select p [] = tt
  All-select p (x ∷ xs) = elim (Bool-cases (p x)) [
    | inl e ↦
        let taken : select p (x ∷ xs) ≡ x ∷ select p xs = rw e in
        subst (All (λ k. p k ≡ true)) (sym taken) (e, All-select p xs)
    | inr e ↦
        let passed : select p (x ∷ xs) ≡ select p xs = rw e in
        subst (All (λ k. p k ≡ true)) (sym passed) (All-select p xs)
  ]

module _ {ℓ κ} {A : Type ℓ} (P : A → Type κ) where
  pub All-delete : (q : A → Bool) (xs : List A) → All P xs → All P (delete q xs)
  All-delete q [] h = tt
  All-delete q (x ∷ xs) h = ground (arith, All-delete q xs h.1)

  pub All-update :
      (q : A → Bool) (f : A → A) (xs : List A)
      → ((x : A) → q x ≡ true → P x → P (f x))
      → All P xs
      → All P (update q f xs)
  All-update q f [] k h = tt
  All-update q f (x ∷ xs) k h = ground (arith, All-update q f xs k h.1, k x)

  pub All-insert_or_ignore :
      (same : A → Bool) (a : A) (xs : List A) → P a → All P xs → All P (insert_or_ignore same a xs)
  All-insert_or_ignore same a xs p h = ground (arith, All-append P xs (a ∷ []) h (p, tt))

  pub All-get : (p : A → Bool) (xs : List A) {a : A} → All P xs → get p xs ≡ some a → P a
  All-get p [] h e = absurd (cc)
  All-get p (x ∷ xs) {a} (first, rest) e = elim (Bool-cases (p x)) [
    | inl found ↦ let e' : x ≡ a = ground arith in subst P e' first
    | inr passed ↦ All-get p xs {a = a} rest (rw passed at e)
  ]
