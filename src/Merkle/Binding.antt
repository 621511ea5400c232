-- ===== src/Merkle/Binding.antt =====
-- What a root of src/merkle.ts says about the leaves, for a given number of them.
use native.Mathlib.Decide.{ℕ_discrete}
use materios_gateway.Prelude.{
  ℕ, zero, suc, ◌+◌, ◌/◌, ◌%◌, ◌≡◌, ◌≢◌, refl, sym, ap, ◌∙◌, ◌⊎◌, true, false, some, List, [], ◌∷◌,
  ◌++◌, arith, length, ltb, ◌==◌, All, Bool-cases, inl, inr,
}
use materios_gateway.Merkle.{
  Buffer, push_last, pad, pair_up, level, first_of, root_loop, merkle_root,
}
use materios_gateway.Merkle.Loop.{length-level, length-pad}

-- Two different buffers with the same hash.
abbrev pub Collision : (Buffer → Buffer) → Type 0
Collision sha256 = (a : Buffer) × (b : Buffer) × (a ≢ b) × (sha256 a ≡ sha256 b)

Buffer-discrete : Discrete Buffer
Buffer-discrete = hlevel ℕ_discrete

append-injective : (a b c d : Buffer) → length a ≡ length c → a ++ b ≡ c ++ d → (a ≡ c) × (b ≡ d)
append-injective [] b [] d len e = (refl, e)
append-injective [] b (y ∷ c) d len e = absurd (omega arith)
append-injective (x ∷ a) b [] d len e = absurd (omega arith)
append-injective (x ∷ a) b (y ∷ c) d len e =
    let (same, rest) = append-injective a b c d (omega arith) (ground arith) in
    (let heads : x ≡ y = ground arith in cc, rest)

abbrev Is32 : Buffer → Type 0
Is32 b = length b ≡ 32

push_last-injective :
    (xs ys : List Buffer) → length xs ≡ length ys → push_last xs ≡ push_last ys → xs ≡ ys
push_last-injective [] [] len e = refl
push_last-injective [] (y ∷ ys) len e = absurd (omega arith)
push_last-injective (x ∷ xs) [] len e = absurd (omega arith)
push_last-injective (x ∷ []) (y ∷ []) len e = ground arith
push_last-injective (x ∷ []) (y ∷ (z ∷ ys)) len e = absurd (omega arith)
push_last-injective (x ∷ (w ∷ xs)) (y ∷ []) len e = absurd (omega arith)
push_last-injective (x ∷ (w ∷ xs)) (y ∷ (z ∷ ys)) len e =
    let tails = push_last-injective (w ∷ xs) (z ∷ ys) (omega arith) (ground arith) in
    let heads : x ≡ y = ground arith in cc

All-push_last : (xs : List Buffer) → All Is32 xs → All Is32 (push_last xs)
All-push_last [] h = tt
All-push_last (x ∷ []) (p, h) = (p, (p, tt))
All-push_last (x ∷ (y ∷ xs)) (p, h) = (p, All-push_last (y ∷ xs) h)

pad-injective : (xs ys : List Buffer) → length xs ≡ length ys → pad xs ≡ pad ys → xs ≡ ys
pad-injective xs ys len e = elim (Bool-cases (length xs % 2 == 1)) [
  | inl odd ↦
      let odd' : (length ys % 2 == 1) ≡ true = rw (← len) odd in
      push_last-injective xs ys len (rw (odd, odd') at e)
  | inr even ↦ let even' : (length ys % 2 == 1) ≡ false = rw (← len) even in rw (even, even') at e
]

All-pad : (xs : List Buffer) → All Is32 xs → All Is32 (pad xs)
All-pad xs h = elim (Bool-cases (length xs % 2 == 1)) [
  | inl odd ↦ rw odd (All-push_last xs h)
  | inr even ↦ rw even h
]

module _ (sha256 : Buffer → Buffer) (digest : (b : Buffer) → length (sha256 b) ≡ 32) where
  All-pair_up : (xs : List Buffer) → All Is32 (pair_up sha256 xs)
  All-pair_up [] = tt
  All-pair_up (a ∷ []) = tt
  All-pair_up (a ∷ (b ∷ xs)) = (digest (a ++ b), All-pair_up xs)

  -- One hash of two concatenations of digests gives the same digests, or a collision.
  node-binding :
      (a b c d : Buffer)
      → Is32 a
      → Is32 c
      → sha256 (a ++ b) ≡ sha256 (c ++ d)
      → ((a ≡ c) × (b ≡ d)) ⊎ Collision sha256
  node-binding a b c d ha hc e = elim (Buffer-discrete (a ++ b) (c ++ d)) [
    | yes same ↦ inl (append-injective a b c d (ha ∙ sym hc) same)
    | no differ ↦ inr (a ++ b, c ++ d, differ, e)
  ]

  pair_up-binding :
      (xs ys : List Buffer)
      → All Is32 xs
      → All Is32 ys
      → length xs ≡ length ys
      → length xs % 2 ≡ 0
      → pair_up sha256 xs ≡ pair_up sha256 ys
      → (xs ≡ ys) ⊎ Collision sha256
  pair_up-binding [] [] h k len even e = inl refl
  pair_up-binding [] (y ∷ ys) h k len even e = absurd (omega arith)
  pair_up-binding (x ∷ xs) [] h k len even e = absurd (omega arith)
  pair_up-binding (x ∷ []) (y ∷ ys) h k len even e = absurd (omega arith)
  pair_up-binding (a ∷ (b ∷ xs)) (c ∷ []) h k len even e = absurd (omega arith)
  pair_up-binding (a ∷ (b ∷ xs)) (c ∷ (d ∷ ys)) (ha, (hb, h)) (hc, (hd, k)) len even e =
      elim (node-binding a b c d ha hc (ground arith)) [
        | inr found ↦ inr found
        | inl (same, same') ↦
            elim (pair_up-binding xs ys h k (omega arith) (omega arith) (ground arith)) [
              | inr found ↦ inr found
              | inl rest ↦ inl (cc)
            ]
      ]

  level-binding :
      (xs ys : List Buffer)
      → All Is32 xs
      → All Is32 ys
      → length xs ≡ length ys
      → level sha256 xs ≡ level sha256 ys
      → (xs ≡ ys) ⊎ Collision sha256
  level-binding xs ys h k len e =
      elim (pair_up-binding (pad xs) (pad ys) (All-pad xs h) (All-pad ys k)
        (omega (arith, length-pad xs, length-pad ys)) (omega (arith, length-pad xs)) e) [
          | inl same ↦ inl (pad-injective xs ys len same)
          | inr found ↦ inr found
        ]

  single-binding :
      (xs ys : List Buffer)
      → length xs ≡ length ys
      → ltb 1 (length xs) ≡ false
      → first_of xs ≡ first_of ys
      → xs ≡ ys
  single-binding [] [] len one e = refl
  single-binding [] (y ∷ ys) len one e = absurd (omega arith)
  single-binding (x ∷ xs) [] len one e = absurd (omega arith)
  single-binding (x ∷ []) (y ∷ []) len one e = ground arith
  single-binding (x ∷ (w ∷ xs)) ys len one e = absurd (ground arith)
  single-binding (x ∷ []) (y ∷ (z ∷ ys)) len one e = absurd (omega arith)

  root_loop-binding :
      (fuel : ℕ) (xs ys : List Buffer) (r : Buffer)
      → All Is32 xs
      → All Is32 ys
      → length xs ≡ length ys
      → root_loop sha256 fuel xs ≡ some r
      → root_loop sha256 fuel ys ≡ some r
      → (xs ≡ ys) ⊎ Collision sha256
  unfolding root_loop
  root_loop-binding zero xs ys r h k len e e' = absurd (ground arith)
  root_loop-binding (suc fuel) xs ys r h k len e e' = elim (Bool-cases (ltb 1 (length xs))) [
    | inl many ↦
        let many' : ltb 1 (length ys) ≡ true = rw (← len) many in
        elim (root_loop-binding fuel (level sha256 xs) (level sha256 ys) r (All-pair_up (pad xs))
          (All-pair_up (pad ys))
          (length-level sha256 xs
            ∙ (ap (λ (n : ℕ). (n + n % 2) / 2) len ∙ sym (length-level sha256 ys)))
          (rw many at e) (rw many' at e')) [
            | inl same ↦ level-binding xs ys h k len same
            | inr found ↦ inr found
          ]
    | inr one ↦
        let one' : ltb 1 (length ys) ≡ false = rw (← len) one in
        inl (single-binding xs ys len one ((rw one at e) ∙ sym (rw one' at e')))
  ]

  -- Two lists of as many 32-byte leaves with the same root are equal, or one can read off two
  -- different buffers with the same hash, if every hash is 32 bytes long.
  pub merkle_root-binding :
      (xs ys : List Buffer) (r : Buffer)
      → All (λ b. length b ≡ 32) xs
      → All (λ b. length b ≡ 32) ys
      → length xs ≡ length ys
      → merkle_root sha256 xs ≡ some r
      → merkle_root sha256 ys ≡ some r
      → (xs ≡ ys) ⊎ Collision sha256
  unfolding merkle_root
  merkle_root-binding [] [] r h k len e e' = inl refl
  merkle_root-binding [] (y ∷ ys) r h k len e e' = absurd (omega arith)
  merkle_root-binding (x ∷ xs) [] r h k len e e' = absurd (omega arith)
  merkle_root-binding (x ∷ []) (y ∷ []) r h k len e e' = inl (ground arith)
  merkle_root-binding (x ∷ []) (y ∷ (z ∷ ys)) r h k len e e' = absurd (omega arith)
  merkle_root-binding (x ∷ (w ∷ xs)) (y ∷ []) r h k len e e' = absurd (omega arith)
  merkle_root-binding (x ∷ (w ∷ xs)) (y ∷ (z ∷ ys)) r h k len e e' =
      root_loop-binding (suc (length (x ∷ (w ∷ xs)))) (x ∷ (w ∷ xs)) (y ∷ (z ∷ ys)) r h k len e
        (rw (← len) at e')
