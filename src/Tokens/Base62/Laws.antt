-- ===== src/Tokens/Base62/Laws.antt =====
-- Laws of `toBase62` (src/api-tokens.ts).
use native.Mathlib.Nat.{pow-suc}
use materios_gateway.Prelude.{
  any, not, false, ℕ, zero, suc, ◌+◌, ◌-◌, ◌*◌, ◌/◌, ◌%◌, ◌^◌, ◌≤◌, ◌<◌, ◌≡◌, refl, sym, ap, ◌∙◌,
  Bool, List, [], ◌∷◌, arith, length, All, ◌==◌, ==_iff, if◌then◌else◌, Bool-cases, inl, inr,
}
use materios_gateway.Tokens.Base62.{
  base62_alphabet, char_at, be_number, digits62, pad_from, number_text, to_base62,
}

-- The place of a character in a list, its length if it is not there.
abbrev place : List ℕ → ℕ → ℕ
place [] c = 0
place (x ∷ xs) c = if x == c then 0 else suc (place xs c)

-- The digits under a base, the largest first.
abbrev digits_under : ℕ → List ℕ
digits_under zero = []
digits_under (suc base) = base ∷ digits_under base

-- A digit that does not stand where the alphabet says.
abbrev is_misplaced : ℕ → Bool
is_misplaced digit = not (place base62_alphabet (char_at base62_alphabet digit) == digit)

any-digits_under :
    (base digit : ℕ) (q : ℕ → Bool)
    → digit < base
    → any q (digits_under base) ≡ false
    → q digit ≡ false
any-digits_under (suc base) digit q small none_such = elim (Bool-cases (digit == base)) [
  | inl top ↦ let same : digit ≡ base = (==_iff digit base).0 top in rw same (ground arith)
  | inr lower ↦ any-digits_under base digit q (ground arith) (ground arith)
]
any-digits_under zero digit q small none_such = absurd (omega arith)

none_misplaced : any is_misplaced (digits_under 62) ≡ false
none_misplaced = refl

place-char_at : (d : ℕ) → d < 62 → place base62_alphabet (char_at base62_alphabet d) ≡ d
place-char_at d h =
    let placed = any-digits_under 62 d is_misplaced h none_misplaced in
    (==_iff _ d).0 (ground arith)

-- The number that a base62 text stands for.
abbrev number62 : ℕ → List ℕ → ℕ
number62 n [] = n
number62 n (c ∷ cs) = number62 (n * 62 + place base62_alphabet c) cs

number62-digits62 :
    (fuel n : ℕ) (out : List ℕ) → n < 62 ^ fuel → number62 0 (digits62 fuel n out) ≡ number62 n out
unfolding digits62
number62-digits62 zero n out h = let e : n ≡ 0 = omega arith in rw e
number62-digits62 (suc fuel) n out h = elim (Bool-cases (n == 0)) [
  | inl e ↦ let z : n ≡ 0 = (==_iff n 0).0 e in rw (e, z)
  | inr e ↦ rw e (
      number62-digits62 fuel (n / 62) (char_at base62_alphabet (n % 62) ∷ out)
        (omega (arith, pow-suc 62 fuel))
      ∙ ap (λ (k : ℕ). number62 k out) (omega (arith, place-char_at (n % 62) (omega arith))))
]

length-digits62-le : (fuel n : ℕ) (out : List ℕ) → length (digits62 fuel n out) ≤ fuel + length out
unfolding digits62
length-digits62-le zero n out = omega arith
length-digits62-le (suc fuel) n out =
    ground (arith, length-digits62-le fuel (n / 62) (char_at base62_alphabet (n % 62) ∷ out))

length-pad_from : (k : ℕ) (out : List ℕ) → length (pad_from k out) ≡ k + length out
unfolding pad_from
length-pad_from zero out = omega arith
length-pad_from (suc k) out = omega (arith, length-pad_from k out)

number62-pad_from : (k : ℕ) (out : List ℕ) → number62 0 (pad_from k out) ≡ number62 0 out
unfolding pad_from
number62-pad_from zero out = refl
number62-pad_from (suc k) out = number62-pad_from k out

byte-le : (n b x : ℕ) → b < 256 → (n * 256 + b + 1) * x ≤ (n + 1) * (256 * x)
byte-le n b x h = grind arith

be_number_bound :
    (n : ℕ) (bs : List ℕ) → All (λ b. b < 256) bs → be_number n bs < (n + 1) * 256 ^ length bs
be_number_bound n [] h = omega arith
be_number_bound n (b ∷ bs) (small, rest) = omega (
  arith,
  be_number_bound (n * 256 + b) bs rest,
  byte-le n b (256 ^ length bs) small,
  ap (λ (k : ℕ). (n + 1) * k) (pow-suc 256 (length bs)),
)

be_number-injective :
    (n m : ℕ) (as' bs : List ℕ)
    → All (λ b. b < 256) as'
    → All (λ b. b < 256) bs
    → length as' ≡ length bs
    → be_number n as' ≡ be_number m bs
    → (n ≡ m) × (as' ≡ bs)
be_number-injective n m [] [] h k len e = (e, refl)
be_number-injective n m [] (b ∷ bs) h k len e = absurd (omega arith)
be_number-injective n m (a ∷ as') [] h k len e = absurd (omega arith)
be_number-injective n m (a ∷ as') (b ∷ bs) (ha, h) (hb, k) len e =
    let (heads, tails) =
      be_number-injective (n * 256 + a) (m * 256 + b) as' bs h k (omega arith) e in
    (omega arith, let same : a ≡ b = omega arith in cc)

-- 32 bytes are a number that 43 digits hold.
abbrev pub Is32Bytes : List ℕ → Type 0
Is32Bytes buf = (length buf ≡ 32) × All (λ b. b < 256) buf

be_number_fits : (buf : List ℕ) → Is32Bytes buf → be_number 0 buf < 62 ^ 43
be_number_fits buf (len, small) = omega (arith, rw len at (be_number_bound 0 buf small))

number62-number_text : (n : ℕ) → n < 62 ^ 43 → number62 0 (number_text n) ≡ n
unfolding number_text
number62-number_text n h = elim (Bool-cases (n == 0)) [
  | inl e ↦ let z : n ≡ 0 = (==_iff n 0).0 e in rw (e, z)
  | inr e ↦ rw e (number62-digits62 43 n [] h)
]

length-number_text-le : (n : ℕ) → length (number_text n) ≤ 43
unfolding number_text
length-number_text-le n = elim (Bool-cases (n == 0)) [
  | inl e ↦ rw e (omega arith)
  | inr e ↦ rw e (length-digits62-le 43 n [])
]

-- The rounds of the loop suffice for 32 bytes: the text stands for their number.
number62-to_base62 : (buf : List ℕ) → Is32Bytes buf → number62 0 (to_base62 buf) ≡ be_number 0 buf
number62-to_base62 buf h =
    let text = number_text (be_number 0 buf) in
    unfold to_base62 in
    (number62-pad_from (43 - length text) text
      ∙ number62-number_text (be_number 0 buf) (be_number_fits buf h))

-- Every token's text is 43 characters long, whatever the bytes.
pub length-to_base62 : (buf : List ℕ) → length (to_base62 buf) ≡ 43
length-to_base62 buf =
    let text = number_text (be_number 0 buf) in
    unfold to_base62 in
    (length-pad_from (43 - length text) text
      ∙ omega (arith, length-number_text-le (be_number 0 buf)))

-- Two lists of 32 bytes with the same text are equal, and the text is 43 characters long.
pub to_base62-injective :
    (as' bs : List ℕ)
    → Is32Bytes as'
    → Is32Bytes bs
    → to_base62 as' ≡ to_base62 bs
    → (length (to_base62 as') ≡ 43) × (as' ≡ bs)
to_base62-injective as' bs h k e = (
  length-to_base62 as',
  (be_number-injective 0 0 as' bs h.1 k.1 (h.0 ∙ sym k.0)
      (sym (number62-to_base62 as' h) ∙ (ap (number62 0) e ∙ number62-to_base62 bs k))).1,
)
