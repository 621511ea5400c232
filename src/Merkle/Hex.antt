-- ===== src/Merkle/Hex.antt =====
-- Laws of `computeRootHashFromChunks` (src/merkle.ts) and of its hex texts.
use materios_gateway.Prelude.{
  ℕ, zero, suc, ◌+◌, ◌*◌, ◌/◌, ◌%◌, ◌<◌, ◌≡◌, ◌≢◌, refl, ap, sym, ◌⊎◌, lower, map, Bool, true,
  false, ◌&&◌, none, some, List, [], ◌∷◌, ◌++◌, arith, length, ltb, ==_iff, and-true, All,
  Bool-cases, Option-cases, inl, inr,
}
use materios_gateway.Merkle.{
  Buffer, Chunk, zeros, hex_value, is_hex_char, every, is_hex64, strip_hex_prefix, from_hex,
  value_or, hex_char, to_hex, merkle_root, RootResult, RootError, ok, throws, out_of_fuel,
  leaves_from, number_of, missing_sha256, not_hex, compute_root_hash_from_chunks, pair_up, level,
  first_of, root_loop,
}
use materios_gateway.Merkle.Loop.{merkle_root_total}

abbrev IsByte : ℕ → Type 0
IsByte b = b < 256

-- Every byte comes back from its two characters.
hex_value-hex_char : (v : ℕ) → v < 16 → hex_value (hex_char v) ≡ some v
hex_value-hex_char v h = ground arith

pub from_hex-to_hex : (bs : Buffer) → All (λ b. b < 256) bs → from_hex (to_hex bs) ≡ bs
from_hex-to_hex [] h = refl
from_hex-to_hex (b ∷ bs) (small, rest) =
    rw
      (
        hex_value-hex_char (b / 16) (omega arith),
        hex_value-hex_char (b % 16) (omega arith),
        from_hex-to_hex bs rest,
      )
      (ap (λ (k : ℕ). k ∷ bs) (omega arith))

is_hex_char-hex_char : (v : ℕ) → v < 16 → is_hex_char (hex_char v) ≡ true
is_hex_char-hex_char v h = rw (hex_value-hex_char v h, is_hex_char)

every-to_hex : (bs : Buffer) → All (λ b. b < 256) bs → every is_hex_char (to_hex bs) ≡ true
every-to_hex [] h = refl
every-to_hex (b ∷ bs) (small, rest) =
    ground
      (arith, is_hex_char-hex_char (b / 16), is_hex_char-hex_char (b % 16), every-to_hex bs rest)

length-to_hex : (bs : Buffer) → length (to_hex bs) ≡ 2 * length bs
length-to_hex [] = omega arith
length-to_hex (b ∷ bs) = omega (arith, length-to_hex bs)

-- Two characters of a hex text are a byte.
pub hex_value-lt : (c : ℕ) → value_or (hex_value c) < 16
hex_value-lt c = ground arith

-- Lower case is the spelling that `to_hex` gives.
lower-hex : (c : ℕ) → is_hex_char c ≡ true → lower c ≡ hex_char (value_or (hex_value c))
lower-hex c h = ground arith

pub lower-to_hex :
    (s : List ℕ) → every is_hex_char s ≡ true → length s % 2 ≡ 0 → map lower s ≡ to_hex (from_hex s)
lower-to_hex [] h even = refl
lower-to_hex (c ∷ []) h even = absurd (omega arith)
lower-to_hex (h ∷ (l ∷ cs)) chars even =
    let (okh, okr) = and-true _ _ chars in
    let (okl, rest) = and-true _ _ okr in
    let high : (value_or (hex_value h) * 16 + value_or (hex_value l)) / 16
        ≡ value_or (hex_value h) =
      omega (arith, hex_value-lt l) in
    let low : (value_or (hex_value h) * 16 + value_or (hex_value l)) % 16 ≡ value_or (hex_value l) =
      omega (arith, hex_value-lt l) in
    rw (high, low, lower-hex h okh, lower-hex l okl, lower-to_hex cs rest (omega arith)) refl

from_hex-small : (cs : List ℕ) → All (λ b. b < 256) (from_hex cs)
from_hex-small [] = tt
from_hex-small (c ∷ []) = tt
from_hex-small (h ∷ (l ∷ cs)) = (omega (arith, hex_value-lt h, hex_value-lt l), from_hex-small cs)

length-from_hex : (cs : List ℕ) → length (from_hex cs) ≡ length cs / 2
length-from_hex [] = omega arith
length-from_hex (c ∷ []) = omega arith
length-from_hex (h ∷ (l ∷ cs)) = omega (arith, length-from_hex cs)

-- 32 bytes.
abbrev pub IsDigest : Buffer → Type 0
IsDigest b = (length b ≡ 32) × All (λ x. x < 256) b

leaf-IsDigest : (s : List ℕ) → is_hex64 s ≡ true → IsDigest (from_hex s)
unfolding is_hex64
leaf-IsDigest s h =
    let len : length s ≡ 64 = (==_iff _ 64).0 (and-true _ _ h).1 in
    (omega (arith, length-from_hex s), from_hex-small s)

leaves-IsDigest :
    (i : ℕ) (cs : List Chunk) (leaves : List Buffer)
    → leaves_from i cs ≡ ok leaves
    → All IsDigest leaves
leaves-IsDigest i [] leaves e = let same : [] ≡ leaves = ground arith in rw (← same) tt
leaves-IsDigest i (c ∷ cs) leaves e = elim (Option-cases c.sha256) [
  | inl missing ↦ absurd (ground arith)
  | inr (raw, given) ↦ elim (Bool-cases (is_hex64 (strip_hex_prefix raw))) [
    | inl hex ↦ elim (leaves-cases (leaves_from (suc i) cs)) [
      | inl (rest, found) ↦
          let same : from_hex (strip_hex_prefix raw) ∷ rest ≡ leaves = ground arith in
          rw (← same)
            (leaf-IsDigest (strip_hex_prefix raw) hex, leaves-IsDigest (suc i) cs rest found)
      | inr (err, failed) ↦ absurd (ground arith)
    ]
    | inr not_hex_text ↦ absurd (ground arith)
  ]
]
  where
    leaves-cases :
        (r : RootResult (List Buffer))
        → ((l : List Buffer) × (r ≡ ok l)) ⊎ ((x : RootError) × (r ≡ throws x))
    leaves-cases (ok l) = inl (l, refl)
    leaves-cases (throws x) = inr (x, refl)

-- A chunk that the function accepts.
abbrev pub is_valid_chunk : Chunk → Bool
is_valid_chunk c = elim c.sha256 [ none ↦ false | some raw ↦ is_hex64 (strip_hex_prefix raw) ]

abbrev pub all_valid : List Chunk → Bool
all_valid [] = true
all_valid (c ∷ cs) = is_valid_chunk c && all_valid cs

-- A leaf is the 32 bytes whose hex text is the hash of its chunk in lower case, without `0x`.
abbrev pub IsLeafOf : Chunk → Buffer → Type 0
IsLeafOf c leaf =
    (length leaf ≡ 32)
    × ((raw : List ℕ) × (c.sha256 ≡ some raw) × (to_hex leaf ≡ map lower (strip_hex_prefix raw)))

-- One leaf for each chunk, in their order.
abbrev pub AreLeavesOf : List Chunk → List Buffer → Type 0
AreLeavesOf [] [] = Unit {0}
AreLeavesOf [] (leaf ∷ leaves) = ⊥
AreLeavesOf (c ∷ cs) [] = ⊥
AreLeavesOf (c ∷ cs) (leaf ∷ leaves) = IsLeafOf c leaf × AreLeavesOf cs leaves

hex64-lower : (s : List ℕ) → is_hex64 s ≡ true → to_hex (from_hex s) ≡ map lower s
unfolding is_hex64
hex64-lower s h =
    let (hex, len) = and-true _ _ h in
    let even : length s ≡ 64 = (==_iff _ 64).0 len in sym (lower-to_hex s hex (omega arith))

leaves-all_valid :
    (i : ℕ) (cs : List Chunk)
    → all_valid cs ≡ true
    → (leaves : List Buffer) × (leaves_from i cs ≡ ok leaves) × AreLeavesOf cs leaves
leaves-all_valid i [] h = ([], refl, tt)
leaves-all_valid i (c ∷ cs) h = elim (Option-cases c.sha256) [
  | inl missing ↦ absurd (ground arith)
  | inr (raw, given) ↦
      let (rest, found, described) = leaves-all_valid (suc i) cs (ground arith) in
      let hex : is_hex64 (strip_hex_prefix raw) ≡ true = ground arith in
      (
        from_hex (strip_hex_prefix raw) ∷ rest,
        ground arith,
        (
          ((leaf-IsDigest (strip_hex_prefix raw) hex).0, (raw, given, hex64-lower _ hex)),
          described,
        ),
      )
]

module _ (sha256 : Buffer → Buffer) (digest : (b : Buffer) → IsDigest (sha256 b)) where
  pair_up-IsDigest : (xs : List Buffer) → All IsDigest (pair_up sha256 xs)
  pair_up-IsDigest [] = tt
  pair_up-IsDigest (a ∷ []) = tt
  pair_up-IsDigest (a ∷ (b ∷ xs)) = (digest (a ++ b), pair_up-IsDigest xs)

  first-IsDigest :
      (xs : List Buffer) (r : Buffer) → All IsDigest xs → first_of xs ≡ some r → IsDigest r
  first-IsDigest [] r h e = absurd (ground arith)
  first-IsDigest (x ∷ xs) r h e = let same : x ≡ r = ground arith in rw (← same) h.0

  root_loop-IsDigest :
      (fuel : ℕ) (xs : List Buffer) (r : Buffer)
      → All IsDigest xs
      → root_loop sha256 fuel xs ≡ some r
      → IsDigest r
  unfolding root_loop
  root_loop-IsDigest zero xs r h e = absurd (ground arith)
  root_loop-IsDigest (suc fuel) xs r h e = elim (Bool-cases (ltb 1 (length xs))) [
    | inl many ↦ root_loop-IsDigest fuel (level sha256 xs) r (pair_up-IsDigest _) (rw many at e)
    | inr one ↦ first-IsDigest xs r h (rw one at e)
  ]

  merkle_root-IsDigest :
      (xs : List Buffer) (r : Buffer)
      → All IsDigest xs
      → merkle_root sha256 xs ≡ some r
      → IsDigest r
  unfolding merkle_root
  merkle_root-IsDigest [] r h e =
      let same : zeros 32 ≡ r = ground arith in rw (← same) (omega arith)
  merkle_root-IsDigest (x ∷ []) r h e = let same : x ≡ r = ground arith in rw (← same) h.0
  merkle_root-IsDigest (x ∷ (y ∷ ys)) r h e = root_loop-IsDigest _ _ r h e

  -- Where every chunk has a hash of 64 hex characters, with or without `0x`, there are as many leaves
  -- as chunks, each the 32 bytes that its chunk's hash spells, and the function returns 64 hex
  -- characters that decode to the Merkle root of these leaves. Every hash is supposed to be 32 bytes.
  pub compute_root_hash_lem :
      (chunks : List Chunk)
      → all_valid chunks ≡ true
      → (leaves : List Buffer) × (root : Buffer) × (text : List ℕ) × AreLeavesOf chunks leaves
        × (merkle_root sha256 leaves ≡ some root)
        × (compute_root_hash_from_chunks sha256 chunks ≡ ok text)
        × (is_hex64 text ≡ true)
        × (from_hex text ≡ root)
  compute_root_hash_lem chunks h =
      let (leaves, decoded, described) = leaves-all_valid 0 chunks h in
      let (root, found) = merkle_root_total sha256 leaves in
      let (len, small) =
        merkle_root-IsDigest leaves root (leaves-IsDigest 0 chunks leaves decoded) found in
      (
        leaves,
        root,
        to_hex root,
        described,
        found,
        unfold compute_root_hash_from_chunks in ground arith,
        unfold is_hex64 in ground (arith, every-to_hex root small, length-to_hex root),
        from_hex-to_hex root small,
      )

-- Any other list of chunks throws.
throws-invalid :
    (i : ℕ) (cs : List Chunk)
    → all_valid cs ≡ false
    → (x : RootError) × (leaves_from i cs ≡ throws x) × (x ≢ out_of_fuel)
throws-invalid i [] h = absurd (ground arith)
throws-invalid i (c ∷ cs) h = elim (Option-cases c.sha256) [
  | inl missing ↦ (missing_sha256 (number_of c i), ground arith, ground arith)
  | inr (raw, given) ↦ elim (Bool-cases (is_hex64 (strip_hex_prefix raw))) [
    | inl hex ↦
        let (x, failed, ne) = throws-invalid (suc i) cs (ground arith) in (x, ground arith, ne)
    | inr not_hex_text ↦
        (not_hex (number_of c i) (length (strip_hex_prefix raw)), ground arith, ground arith)
  ]
]

-- A list with a chunk that has no such hash is refused, by an error of one of its chunks.
compute_root_hash_throws :
    (sha256 : Buffer → Buffer) (chunks : List Chunk)
    → all_valid chunks ≡ false
    → (x : RootError) × (compute_root_hash_from_chunks sha256 chunks ≡ throws x) × (x ≢ out_of_fuel)
unfolding compute_root_hash_from_chunks
compute_root_hash_throws sha256 chunks h =
    let (x, failed, ne) = throws-invalid 0 chunks h in (x, rw failed, ne)
