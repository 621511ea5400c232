-- ===== src/Merkle.antt =====
-- Chunk-Merkle roots (src/merkle.ts). A buffer is the list of its bytes and a text the list of its
-- characters' codes. `sha256` is the platform's SHA-256 of a buffer.
pub mod Loop
pub mod Binding
pub mod Hex
mod Tests
use materios_gateway.Prelude.{
  ℕ, zero, suc, ◌+◌, ◌-◌, ◌*◌, ◌/◌, ◌%◌, Bool, true, false, ◌&&◌, ◌||◌, Option, none, some, List,
  [], ◌∷◌, ◌++◌, length, ltb, leb, ◌==◌, if◌then◌else◌,
}

abbrev pub Buffer : Type 0
Buffer = List ℕ

-- `Buffer.alloc(n, 0)`
abbrev pub zeros : ℕ → Buffer
zeros zero = []
zeros (suc n) = 0 ∷ zeros n

-- `nodes.push(nodes[nodes.length - 1])`
abbrev pub push_last {ℓ} : {A : Type ℓ} → List A → List A
push_last [] = []
push_last (x ∷ []) = x ∷ x ∷ []
push_last (x ∷ (y ∷ ys)) = x ∷ push_last (y ∷ ys)

-- `if (nodes.length % 2 === 1)` push the last node again
abbrev pub pad {ℓ} : {A : Type ℓ} → List A → List A
pad nodes = if length nodes % 2 == 1 then push_last nodes else nodes

abbrev pub first_of : List Buffer → Option Buffer
first_of [] = none
first_of (x ∷ xs) = some x

module _ (sha256 : Buffer → Buffer) where
  -- the inner loop, which steps by two
  abbrev pub pair_up : List Buffer → List Buffer
  pair_up [] = []
  pair_up (a ∷ []) = []
  pair_up (a ∷ (b ∷ nodes)) = sha256 (a ++ b) ∷ pair_up nodes

  abbrev pub level : List Buffer → List Buffer
  level nodes = pair_up (pad nodes)

  -- `while (nodes.length > 1)`; `none` where the fuel runs out
  pub root_loop : ℕ → List Buffer → Option Buffer
  root_loop zero nodes = none
  root_loop (suc fuel) nodes =
      let rest = root_loop fuel (level nodes) in
      if ltb 1 (length nodes) then rest else first_of nodes

  -- Each round leaves fewer nodes, so a round for each leaf and one to stop suffice.
  pub merkle_root : List Buffer → Option Buffer
  merkle_root [] = some (zeros 32)
  merkle_root (leaf ∷ []) = some leaf
  merkle_root leaves = root_loop (suc (length leaves)) leaves

-- `[0-9a-fA-F]`, and the value of such a character
abbrev pub hex_value : ℕ → Option ℕ
hex_value c =
    if leb b'0' c && leb c b'9'
    then some (c - b'0')
    else if leb b'a' c && leb c b'f'
    then some (c - b'a' + 10)
    else if leb b'A' c && leb c b'F'
    then some (c - b'A' + 10)
    else none

abbrev pub is_hex_char : ℕ → Bool
is_hex_char c = elim (hex_value c) [ none ↦ false | some v ↦ true ]

abbrev pub every : (ℕ → Bool) → List ℕ → Bool
every p [] = true
every p (c ∷ cs) = p c && every p cs

pub is_hex64 : List ℕ → Bool
is_hex64 s = every is_hex_char s && length s == 64

pub strip_hex_prefix : List ℕ → List ℕ
strip_hex_prefix (c ∷ (d ∷ cs)) = if c == b'0' && (d == b'x' || d == b'X') then cs else c ∷ (d ∷ cs)
strip_hex_prefix hex = hex

pub is_valid_root_hash : List ℕ → Bool
is_valid_root_hash s = is_hex64 (strip_hex_prefix s)

abbrev pub value_or : Option ℕ → ℕ
value_or none = 0
value_or (some v) = v

-- `Buffer.from(hex, "hex")` of a hex text of even length
abbrev pub from_hex : List ℕ → Buffer
from_hex (h ∷ (l ∷ cs)) = (value_or (hex_value h) * 16 + value_or (hex_value l)) ∷ from_hex cs
from_hex cs = []

abbrev pub hex_char : ℕ → ℕ
hex_char v = if ltb v 10 then b'0' + v else b'a' + (v - 10)

-- `buffer.toString("hex")`
abbrev pub to_hex : Buffer → List ℕ
to_hex [] = []
to_hex (b ∷ bs) = hex_char (b / 16) ∷ (hex_char (b % 16) ∷ to_hex bs)

pub record Chunk : Type 0 where
  pub sha256 : Option (List ℕ)
  pub index : Option ℕ

-- What the function throws: the number of the chunk, and the length of the text.
pub data RootError : Type 0 where
  missing_sha256 : ℕ → RootError
  not_hex : ℕ → ℕ → RootError
  out_of_fuel : RootError

pub data RootResult (A : Type 0) : Type 0 where
  ok : A → RootResult A
  throws : RootError → RootResult A

infixl 5 ◌>>=◌
abbrev pub ◌>>=◌ : {A B : Type 0} → RootResult A → (A → RootResult B) → RootResult B
ok a >>= f = f a
throws e >>= f = throws e

abbrev pub number_of : Chunk → ℕ → ℕ
number_of c i = elim c.index [ none ↦ i | some n ↦ n ]

abbrev pub leaf_of : Chunk → ℕ → RootResult Buffer
leaf_of c i = elim c.sha256 [
  | none ↦ throws (missing_sha256 (number_of c i))
  | some raw ↦
      let hex = strip_hex_prefix raw in
      if is_hex64 hex then ok (from_hex hex) else throws (not_hex (number_of c i) (length hex))
]

abbrev pub leaves_from : ℕ → List Chunk → RootResult (List Buffer)
leaves_from i [] = ok []
leaves_from i (c ∷ cs) = do leaf ← leaf_of c i; rest ← leaves_from (suc i) cs; ok (leaf ∷ rest)

abbrev pub or_out_of_fuel : Option Buffer → RootResult (List ℕ)
or_out_of_fuel none = throws out_of_fuel
or_out_of_fuel (some root) = ok (to_hex root)

pub compute_root_hash_from_chunks : (Buffer → Buffer) → List Chunk → RootResult (List ℕ)
compute_root_hash_from_chunks sha256 chunks = do
  leaves ← leaves_from 0 chunks
  or_out_of_fuel (merkle_root sha256 leaves)
