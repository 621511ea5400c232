-- ===== src/Merkle/Tests.antt =====
-- Roots of concrete leaves, and the theorems at such inputs.
use materios_gateway.Prelude.{
  ℕ, ◌+◌, ◌%◌, ◌≡◌, refl, ◌⊎◌, codes, true, false, none, some, List, [], ◌∷◌, arith, length,
}
use materios_gateway.Merkle.{
  Buffer, zeros, push_last, root_loop, merkle_root, is_hex64, strip_hex_prefix, is_valid_root_hash,
  from_hex, Chunk, ok, compute_root_hash_from_chunks,
}
use materios_gateway.Merkle.Loop.{merkle_root-push_last}
use materios_gateway.Merkle.Binding.{Collision, merkle_root-binding}
use materios_gateway.Merkle.Hex.{IsDigest, AreLeavesOf, all_valid, compute_root_hash_lem}

abbrev sum_bytes : Buffer → ℕ
sum_bytes [] = 0
sum_bytes (b ∷ bs) = b + sum_bytes bs

-- A digest of 32 bytes, the first of which is a checksum.
abbrev checksum : Buffer → Buffer
checksum b = (sum_bytes b % 256) ∷ zeros 31

checksum-IsDigest : (b : Buffer) → IsDigest (checksum b)
checksum-IsDigest b = ground arith

checksum-length : (b : Buffer) → length (checksum b) ≡ 32
checksum-length b = omega arith

abbrev leaf : ℕ → Buffer
leaf n = n ∷ zeros 31

three_leaves : merkle_root checksum (leaf 1 ∷ leaf 2 ∷ leaf 3 ∷ []) ≡ some (leaf 9)
unfolding merkle_root root_loop
three_leaves = refl

one_leaf : merkle_root checksum (leaf 1 ∷ []) ≡ some (leaf 1)
unfolding merkle_root
one_leaf = refl

merkle_root-push_last_example :
    (length (push_last (leaf 1 ∷ leaf 2 ∷ leaf 3 ∷ [])) ≡ 4)
    × (merkle_root checksum (push_last (leaf 1 ∷ leaf 2 ∷ leaf 3 ∷ []))
        ≡ merkle_root checksum (leaf 1 ∷ leaf 2 ∷ leaf 3 ∷ []))
merkle_root-push_last_example =
    merkle_root-push_last checksum (leaf 1 ∷ leaf 2 ∷ leaf 3 ∷ []) refl (omega arith)

left_root : merkle_root checksum (leaf 1 ∷ leaf 2 ∷ []) ≡ some (leaf 3)
unfolding merkle_root root_loop
left_root = refl

right_root : merkle_root checksum (leaf 2 ∷ leaf 1 ∷ []) ≡ some (leaf 3)
unfolding merkle_root root_loop
right_root = refl

-- The checksum has collisions, and two lists of leaves show one.
merkle_root-binding_example : ((leaf 1 ∷ leaf 2 ∷ []) ≡ (leaf 2 ∷ leaf 1 ∷ [])) ⊎ Collision checksum
merkle_root-binding_example =
    merkle_root-binding checksum checksum-length (leaf 1 ∷ leaf 2 ∷ []) (leaf 2 ∷ leaf 1 ∷ [])
      (leaf 3) (refl, (refl, tt)) (refl, (refl, tt)) refl left_root right_root

abbrev hash_text : List ℕ
hash_text = codes "0xAb00000000000000000000000000000000000000000000000000000000000001"

abbrev good_chunk : Chunk
good_chunk = record { sha256 = some hash_text; index = some 0 }

abbrev bad_chunk : Chunk
bad_chunk = record { sha256 = some (codes "0xAb"); index = none }

root_valid : is_valid_root_hash hash_text ≡ true
unfolding is_valid_root_hash is_hex64 strip_hex_prefix
root_valid = refl

both_valid : all_valid (good_chunk ∷ good_chunk ∷ []) ≡ true
unfolding is_hex64 strip_hex_prefix
both_valid = refl

compute_root_hash_lem_example :
    (leaves : List Buffer) × (root : Buffer) × (text : List ℕ) × AreLeavesOf
      (good_chunk ∷ good_chunk ∷ [])
      leaves
    × (merkle_root checksum leaves ≡ some root)
    × (compute_root_hash_from_chunks checksum (good_chunk ∷ good_chunk ∷ []) ≡ ok text)
    × (is_hex64 text ≡ true)
    × (from_hex text ≡ root)
compute_root_hash_lem_example =
    compute_root_hash_lem checksum checksum-IsDigest (good_chunk ∷ good_chunk ∷ []) both_valid

one_invalid : all_valid (good_chunk ∷ bad_chunk ∷ []) ≡ false
unfolding is_hex64 strip_hex_prefix
one_invalid = refl
