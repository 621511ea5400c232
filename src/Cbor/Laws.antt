-- ===== src/Cbor/Laws.antt =====
-- What is encoded is read back (src/schemas/compute_metering_v1.ts).
use materios_gateway.Prelude.{
  ℕ, ◌+◌, ◌*◌, ◌/◌, ◌%◌, ◌^◌, ◌<◌, ◌≡◌, refl, Text, true, Option, none, some, [], ◌∷◌, ◌++◌, length,
  take, drop, leb, ltb, arith, Bool-cases, inl, inr, length-append,
}
use mathlib.Core.List.{append_assoc}
use materios_gateway.Merkle.{Buffer, every}
use materios_gateway.Cbor.{
  pos, negsuc, integer, fraction, infinite, EntryValue, text, number, ◌>>=◌, js_safe_int, byte,
  four_bytes, eight_bytes, encode_uint, utf8, is_ascii, encode_text, encode_value,
}
use materios_gateway.Cbor.Decode.{argument, text_of, decode_head, decode_value}

byte_values :
    (n : ℕ)
    → n < 2 ^ 64
    → (((((((0 * 256 + byte 56 n) * 256 + byte 48 n) * 256 + byte 40 n) * 256 + byte 32 n) * 256
                    + byte 24 n)
                  * 256
                + byte 16 n)
              * 256
            + byte 8 n)
          * 256
        + byte 0 n
      ≡ n
byte_values n h = omega arith

head_parts :
    (major info : ℕ)
    → info < 32
    → ((major * 32 + info) % 32 ≡ info) × ((major * 32 + info) / 32 ≡ major)
head_parts major info h = omega arith

-- A head whose argument is read back.
decode_head-argument :
    (major info n : ℕ) (bs rest : Buffer)
    → info < 32
    → argument info bs ≡ some (n, rest)
    → decode_head ((major * 32 + info) ∷ bs) ≡ some (major, n, rest)
unfolding decode_head
decode_head-argument major info n bs rest h e =
    let (low, high) = head_parts major info h in rw (low, high, e) refl

pub decode_head-eight_bytes :
    (major n : ℕ) (rest : Buffer)
    → n < 2 ^ 64
    → decode_head ((major * 32 + 27) ∷ (eight_bytes n ++ rest)) ≡ some (major, n, rest)
decode_head-eight_bytes major n rest h =
    decode_head-argument major 27 n (eight_bytes n ++ rest) rest (omega arith)
      (rw (byte_values n h) refl)

argument-small : (n : ℕ) (rest : Buffer) → leb n 23 ≡ true → argument n rest ≡ some (n, rest)
argument-small n rest h = rw h refl

two_bytes-value : (n : ℕ) → n < 65536 → (0 * 256 + byte 8 n) * 256 + byte 0 n ≡ n
two_bytes-value n h = omega arith

four_bytes-value :
    (n : ℕ)
    → n < 4294967296
    → (((0 * 256 + byte 24 n) * 256 + byte 16 n) * 256 + byte 8 n) * 256 + byte 0 n ≡ n
four_bytes-value n h = omega arith

-- A head that is written is read back, with its major type, whatever follows it.
pub decode_head-encode_uint :
    (major n : ℕ) (bs rest : Buffer)
    → encode_uint major n ≡ some bs
    → decode_head (bs ++ rest) ≡ some (major, n, rest)
unfolding encode_uint
decode_head-encode_uint major n bs rest e = elim (Bool-cases (leb n 23)) [
  | inl tiny ↦
      let same : (major * 32 + n) ∷ [] ≡ bs = ground arith in
      rw (← same)
        (decode_head-argument major n n rest rest (ground arith) (argument-small n rest tiny))
  | inr above ↦ elim (Bool-cases (leb n 0xff)) [
    | inl one ↦
        let same : (major * 32 + 24) ∷ n ∷ [] ≡ bs = ground arith in
        rw (← same) (decode_head-argument major 24 n (n ∷ rest) rest (omega arith) (ground arith))
    | inr above' ↦ elim (Bool-cases (leb n 0xffff)) [
      | inl two ↦
          let same : (major * 32 + 25) ∷ byte 8 n ∷ byte 0 n ∷ [] ≡ bs = ground arith in
          rw (← same) (
            decode_head-argument major 25 n (byte 8 n ∷ byte 0 n ∷ rest) rest (omega arith)
              (rw (two_bytes-value n (ground arith)) refl))
      | inr above'' ↦ elim (Bool-cases (leb n 0xffffffff)) [
        | inl four ↦
            let same : (major * 32 + 26) ∷ four_bytes n ≡ bs = ground arith in
            rw (← same) (
              decode_head-argument major 26 n (four_bytes n ++ rest) rest (omega arith)
                (rw (four_bytes-value n (ground arith)) refl))
        | inr large ↦ elim (Bool-cases (ltb js_safe_int n)) [
          | inl unsafe ↦ absurd (ground arith)
          | inr safe ↦
              let same : (major * 32 + 27) ∷ eight_bytes n ≡ bs = ground arith in
              rw (← same) (decode_head-eight_bytes major n rest (ground arith))
        ]
      ]
    ]
  ]
]

pub >>=-eq-some {ℓ κ} :
    {A : Type ℓ} {B : Type κ} (m : Option A) (f : A → Option B) {b : B}
    → (m >>= f) ≡ some b
    → (a : A) × (m ≡ some a) × (f a ≡ some b)
>>=-eq-some none f h = absurd (cc)
>>=-eq-some (some a) f h = (a, refl, h)

pub utf8_ascii : (t : Text) → every is_ascii t ≡ true → utf8 t ≡ t
utf8_ascii [] h = refl
utf8_ascii (c ∷ cs) h = ground (arith, utf8_ascii cs)

take-append : (t r : Buffer) → take (length t) (t ++ r) ≡ t
take-append [] r = refl
take-append (c ∷ cs) r = rw (take-append cs r) refl

drop-append : (t r : Buffer) → drop (length t) (t ++ r) ≡ r
drop-append [] r = refl
drop-append (c ∷ cs) r = drop-append cs r

text_of-append : (t r : Buffer) → text_of (length t) (t ++ r) ≡ some (t, r)
text_of-append t r =
    let fits : leb (length t) (length (t ++ r)) ≡ true =
      ground (arith, length-append {A = ℕ} t r) in
    rw (fits, take-append t r, drop-append t r) refl

module _ {F : Type 0} (bits : F → ℕ) (of_bits : ℕ → F) where
  -- Texts of ASCII characters.
  abbrev pub IsPlain : EntryValue F → Type 0
  IsPlain (text s) = every is_ascii s ≡ true
  IsPlain (number n) = Unit {0}

  module _ (wide : (f : F) → bits f < 2 ^ 64) (inverse : (f : F) → of_bits (bits f) ≡ f) where
    text_back :
        (s : Text) (bs rest : Buffer)
        → every is_ascii s ≡ true
        → encode_text s ≡ some bs
        → decode_value of_bits (bs ++ rest) ≡ some (text s, rest)
    unfolding decode_value encode_text
    text_back s bs rest h e =
        let (head, found, joined) =
          >>=-eq-some (encode_uint 3 (length (utf8 s))) (λ head. some (head ++ utf8 s)) e in
        let same : head ++ utf8 s ≡ bs = ground arith in
        rw (← same, append_assoc head (utf8 s) rest)
          (rw (decode_head-encode_uint 3 (length (utf8 s)) head (utf8 s ++ rest) found)
            (rw (text_of-append (utf8 s) rest) (rw (utf8_ascii s h) refl)))

    -- A value that is written is read back, whatever follows it.
    pub decode_value-encode_value :
        (v : EntryValue F) (bs rest : Buffer)
        → IsPlain v
        → encode_value bits v ≡ some bs
        → decode_value of_bits (bs ++ rest) ≡ some (v, rest)
    unfolding decode_value encode_text
    decode_value-encode_value (text s) bs rest h e = text_back s bs rest h e
    decode_value-encode_value (number (integer (pos n))) bs rest h e =
        rw (decode_head-encode_uint 0 n bs rest e) refl
    decode_value-encode_value (number (integer (negsuc n))) bs rest h e =
        rw (decode_head-encode_uint 1 n bs rest e) refl
    decode_value-encode_value (number (fraction f)) bs rest h e =
        let same : 251 ∷ eight_bytes (bits f) ≡ bs = ground arith in
        rw (← same) (rw (decode_head-eight_bytes 7 (bits f) rest (wide f)) (rw (inverse f) refl))
    decode_value-encode_value (number infinite) bs rest h e = absurd (cc)
