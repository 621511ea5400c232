-- ===== src/Merkle/Loop.antt =====
-- Laws of the loop of `merkleRoot` (src/merkle.ts).
use materios_gateway.Prelude.{
  ℕ, zero, suc, ◌+◌, ◌/◌, ◌%◌, ◌≤◌, ◌<◌, ◌≡◌, refl, sym, ap, ◌∙◌, true, false, some, List, [], ◌∷◌,
  arith, length, ltb, ltb→lt, lt→ltb, ◌==◌, ==_iff, Bool-cases, inl, inr,
}
use materios_gateway.Merkle.{
  Buffer, push_last, pad, pair_up, level, first_of, root_loop, merkle_root,
}

length-push_last {ℓ} :
    {A : Type ℓ} (x : A) (xs : List A) → length (push_last (x ∷ xs)) ≡ suc (length (x ∷ xs))
length-push_last x [] = refl
length-push_last x (y ∷ ys) = ap suc (length-push_last y ys)

length-push_last-le {ℓ} : {A : Type ℓ} (xs : List A) → length (push_last xs) ≤ suc (length xs)
length-push_last-le [] = omega arith
length-push_last-le (x ∷ xs) = omega (arith, length-push_last x xs)

pub length-pad {ℓ} : {A : Type ℓ} (xs : List A) → length (pad xs) ≡ length xs + length xs % 2
length-pad [] = omega arith
length-pad (x ∷ xs) = elim (Bool-cases (length (x ∷ xs) % 2 == 1)) [
  | inl e ↦
      let odd : length (x ∷ xs) % 2 ≡ 1 = (==_iff _ 1).0 e in
      rw e (length-push_last x xs ∙ omega arith)
  | inr e ↦ rw e (ground arith)
]

module _ (sha256 : Buffer → Buffer) where
  length-pair_up : (xs : List Buffer) → length (pair_up sha256 xs) ≡ length xs / 2
  length-pair_up [] = omega arith
  length-pair_up (a ∷ []) = omega arith
  length-pair_up (a ∷ (b ∷ xs)) = omega (arith, length-pair_up xs)

  -- A level has half as many nodes, rounded up.
  pub length-level : (xs : List Buffer) → length (level sha256 xs) ≡ (length xs + length xs % 2) / 2
  length-level xs = length-pair_up (pad xs) ∙ ap (λ (n : ℕ). n / 2) (length-pad xs)

  -- With as many rounds as there are nodes the loop ends, and more rounds change nothing.
  root_loop_total :
      (fuel : ℕ) (xs : List Buffer)
      → 0 < length xs
      → length xs ≤ fuel
      → (r : Buffer) × ((more : ℕ) → fuel ≤ more → root_loop sha256 more xs ≡ some r)
  unfolding root_loop
  root_loop_total zero xs pos h = absurd (omega arith)
  root_loop_total (suc fuel) xs pos h = elim (Bool-cases (ltb 1 (length xs))) [
    | inl many ↦
        let lt = ltb→lt 1 (length xs) many in
        let len = length-level xs in
        let (r, found) = root_loop_total fuel (level sha256 xs) (omega arith) (omega arith) in
        (r, again many r found)
    | inr one ↦ let (r, e) = single xs one pos in (r, stop one r e)
  ]
    where
      single :
          (ys : List Buffer)
          → ltb 1 (length ys) ≡ false
          → 0 < length ys
          → (r : Buffer) × (first_of ys ≡ some r)
      single [] one p = absurd (omega arith)
      single (y ∷ ys) one p = (y, refl)

      again :
          ltb 1 (length xs) ≡ true
          → (r : Buffer)
          → ((more : ℕ) → fuel ≤ more → root_loop sha256 more (level sha256 xs) ≡ some r)
          → (more : ℕ) → suc fuel ≤ more
          → root_loop sha256 more xs ≡ some r
      again many r found zero le = absurd (omega arith)
      again many r found (suc more) le = rw many (found more (omega arith))

      stop :
          ltb 1 (length xs) ≡ false
          → (r : Buffer) → first_of xs ≡ some r
          → (more : ℕ) → suc fuel ≤ more
          → root_loop sha256 more xs ≡ some r
      stop one r e zero le = absurd (omega arith)
      stop one r e (suc more) le = rw one e

  -- Every list of leaves has a root: the rounds suffice.
  pub merkle_root_total :
      (leaves : List Buffer) → (r : Buffer) × (merkle_root sha256 leaves ≡ some r)
  merkle_root_total [] = unfold merkle_root in (_, refl)
  merkle_root_total (x ∷ []) = unfold merkle_root in (x, refl)
  merkle_root_total (x ∷ (y ∷ ys)) =
      let (r, found) =
        root_loop_total (length (x ∷ (y ∷ ys))) (x ∷ (y ∷ ys)) (omega arith) (omega arith) in
      (r, unfold merkle_root in found (suc (length (x ∷ (y ∷ ys)))) (omega arith))

  pub root_loop-fuel :
      (fuel more : ℕ) (xs : List Buffer)
      → 0 < length xs
      → length xs ≤ fuel
      → length xs ≤ more
      → root_loop sha256 fuel xs ≡ root_loop sha256 more xs
  root_loop-fuel fuel more xs pos h k =
      let (r, found) = root_loop_total (length xs) xs pos (omega arith) in
      found fuel h ∙ sym (found more k)

  push_last-even :
      (xs : List Buffer)
      → length xs % 2 ≡ 1
      → 1 < length xs
      → level sha256 (push_last xs) ≡ level sha256 xs
  push_last-even [] odd many = absurd (omega arith)
  push_last-even (x ∷ xs) odd many =
      let len = length-push_last x xs in
      let even : (length (push_last (x ∷ xs)) % 2 == 1) ≡ false = ground (arith, len) in
      let is_odd : (length (x ∷ xs) % 2 == 1) ≡ true = (==_iff _ 1).1 odd in rw (even, is_odd)

  root_of_many :
      (fuel : ℕ) (xs : List Buffer)
      → 1 < length xs
      → length xs ≤ fuel
      → merkle_root sha256 xs ≡ root_loop sha256 fuel (level sha256 xs)
  root_of_many fuel [] many h = absurd (omega arith)
  root_of_many fuel (x ∷ []) many h = absurd (omega arith)
  root_of_many fuel (x ∷ (y ∷ ys)) many h =
      let xs = x ∷ (y ∷ ys) in
      let len = length-level xs in
      let step : root_loop sha256 (suc (length xs)) xs
          ≡ root_loop sha256 (length xs) (level sha256 xs) =
        unfold root_loop in rw (lt→ltb 1 (length xs) many) in
      unfold merkle_root in
      (step
        ∙ root_loop-fuel (length xs) fuel (level sha256 xs) (omega arith) (omega arith)
            (omega arith))

  -- The root does not show how many leaves there are: of three, five or any larger odd number of
  -- leaves, repeating the last leaf gives a longer list with the same root.
  pub merkle_root-push_last :
      (leaves : List Buffer)
      → length leaves % 2 ≡ 1
      → 1 < length leaves
      → (length (push_last leaves) ≡ suc (length leaves))
        × (merkle_root sha256 (push_last leaves) ≡ merkle_root sha256 leaves)
  merkle_root-push_last [] odd many = absurd (omega arith)
  merkle_root-push_last (x ∷ xs) odd many =
      let leaves = x ∷ xs in
      let len = length-push_last x xs in
      let fuel = suc (length leaves) in
      (
        len,
        root_of_many fuel (push_last leaves) (omega arith) (omega arith)
            ∙ (ap (root_loop sha256 fuel) (push_last-even leaves odd many)
                ∙ sym (root_of_many fuel leaves many (omega arith))),
      )
