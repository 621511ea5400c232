-- ===== src/Sql.antt =====
-- SQL statements over a table, which is the list of its rows in the order of insertion. A `WHERE`
-- clause is a Boolean test on the row.
pub mod Laws
pub mod Order
use materios_gateway.Prelude.{
  ℕ, ◌+◌, Bool, true, false, not, Option, none, some, List, [], ◌∷◌, ◌++◌, any, if◌then◌else◌,
}

module _ {ℓ} {A : Type ℓ} where
  -- `SELECT … WHERE p`, all rows
  abbrev pub select : (A → Bool) → List A → List A
  select p [] = []
  select p (x ∷ xs) = if p x then x ∷ select p xs else select p xs

  -- `SELECT … WHERE p LIMIT 1`, or where `p` fixes the primary key
  abbrev pub get : (A → Bool) → List A → Option A
  get p [] = none
  get p (x ∷ xs) = if p x then some x else get p xs

  -- `SELECT COUNT(*) … WHERE p`; also the number of rows that an `UPDATE … WHERE p` changes
  abbrev pub count : (A → Bool) → List A → ℕ
  count p [] = 0
  count p (x ∷ xs) = (if p x then 1 else 0) + count p xs

  -- `DELETE … WHERE p`
  abbrev pub delete : (A → Bool) → List A → List A
  delete p [] = []
  delete p (x ∷ xs) = if p x then delete p xs else x ∷ delete p xs

  -- `UPDATE … SET f WHERE p`
  abbrev pub update : (A → Bool) → (A → A) → List A → List A
  update p f [] = []
  update p f (x ∷ xs) = (if p x then f x else x) ∷ update p f xs

  -- `INSERT OR IGNORE`; `same` tests for the new row's primary key
  abbrev pub insert_or_ignore : (A → Bool) → A → List A → List A
  insert_or_ignore same a xs = if any same xs then xs else xs ++ a ∷ []

  -- `INSERT OR REPLACE`
  abbrev pub insert_or_replace : (A → Bool) → A → List A → List A
  insert_or_replace same a xs = delete same xs ++ a ∷ []

  -- `INSERT … ON CONFLICT DO UPDATE SET f`
  abbrev pub upsert : (A → Bool) → A → (A → A) → List A → List A
  upsert same a f xs = if any same xs then update same f xs else xs ++ a ∷ []

  -- `ORDER BY le`, by insertion
  abbrev pub insert_by : (A → A → Bool) → A → List A → List A
  insert_by le a [] = a ∷ []
  insert_by le a (x ∷ xs) = if le a x then a ∷ (x ∷ xs) else x ∷ insert_by le a xs

  abbrev pub order_by : (A → A → Bool) → List A → List A
  order_by le [] = []
  order_by le (x ∷ xs) = insert_by le x (order_by le xs)

  abbrev pub head? : List A → Option A
  head? [] = none
  head? (x ∷ xs) = some x
