-- ===== src/Tokens/Base62.antt =====
-- The base62 text of a token's random bytes (src/api-tokens.ts, `toBase62`).
pub mod Laws
use materios_gateway.Prelude.{
  ℕ, zero, suc, ◌+◌, ◌-◌, ◌*◌, ◌/◌, ◌%◌, ◌^◌, ◌≤◌, ◌<◌, ◌≡◌, refl, sym, ap, ◌∙◌, codes, Bool, true,
  false, List, [], ◌∷◌, ◌++◌, arith, length, length-append, All, ltb, leb, ◌==◌, if◌then◌else◌,
  Bool-cases, inl, inr,
}

abbrev pub base62_alphabet : List ℕ
base62_alphabet = codes "0123456789ABCDEFGHIJKLMNOPQRSTUVWXYZabcdefghijklmnopqrstuvwxyz"

abbrev pub char_at : List ℕ → ℕ → ℕ
char_at [] i = 0
char_at (c ∷ cs) zero = c
char_at (c ∷ cs) (suc i) = char_at cs i

-- `n = (n << 8n) | BigInt(b)` over the bytes, the most significant first
abbrev pub be_number : ℕ → List ℕ → ℕ
be_number n [] = n
be_number n (b ∷ bs) = be_number (n * 256 + b) bs

-- `while (n > 0n) { out = ALPHABET[n % 62n] + out; n = n / 62n; }`, at most `fuel` rounds
pub digits62 : ℕ → ℕ → List ℕ → List ℕ
digits62 zero n out = out
digits62 (suc fuel) n out =
    let rest = digits62 fuel (n / 62) (char_at base62_alphabet (n % 62) ∷ out) in
    if n == 0 then out else rest

-- `s.padStart(43, "0")`
pub pad_from : ℕ → List ℕ → List ℕ
pad_from zero out = out
pad_from (suc k) out = b'0' ∷ pad_from k out

-- `if (n === 0n) out = "0"` and the loop: 43 rounds for the number of 32 bytes
pub number_text : ℕ → List ℕ
number_text n = if n == 0 then b'0' ∷ [] else digits62 43 n []

pub to_base62 : List ℕ → List ℕ
to_base62 buf = let out = number_text (be_number 0 buf) in pad_from (43 - length out) out
