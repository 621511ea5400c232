-- ===== src/Cbor.antt =====
-- The canonical CBOR encoder of metering records (src/schemas/compute_metering_v1.ts). A number of
-- JavaScript is an integer, a fraction, or infinite; `F` has the finite numbers that are no integers,
-- and `bits` is the bit pattern that `DataView.setFloat64` writes. `none` is a `TypeError`.
pub mod Decode
pub mod Entries
pub mod Laws
pub mod Maps
mod Tests
use materios_gateway.Prelude.{
  ℕ, ◌+◌, ◌-◌, ◌*◌, ◌/◌, ◌%◌, ◌^◌, String, Text, codes, codes_leb, Bool, Option, none, some, List,
  [], ◌∷◌, ◌++◌, length, leb, ltb, if◌then◌else◌,
}
use materios_gateway.Merkle.{Buffer}
use materios_gateway.Sql.{order_by}

-- `negsuc n` is -(n + 1).
pub data ℤ : Type 0 where
  pos negsuc : ℕ → ℤ

pub data Number (F : Type 0) : Type 0 where
  integer : ℤ → Number F
  fraction : F → Number F
  infinite : Number F

pub data EntryValue (F : Type 0) : Type 0 where
  text : Text → EntryValue F
  number : Number F → EntryValue F

infixl 5 ◌>>=◌
abbrev pub ◌>>=◌ {ℓ κ} : {A : Type ℓ} {B : Type κ} → Option A → (A → Option B) → Option B
none >>= f = none
some a >>= f = f a

-- `Number.MAX_SAFE_INTEGER`
abbrev pub js_safe_int : ℕ
js_safe_int = 2 ^ 53 - 1

-- The byte of weight 2 ^ k.
abbrev pub byte : ℕ → ℕ → ℕ
byte k n = n / 2 ^ k % 256

abbrev pub four_bytes : ℕ → Buffer
four_bytes n = byte 24 n ∷ byte 16 n ∷ byte 8 n ∷ byte 0 n ∷ []

abbrev pub eight_bytes : ℕ → Buffer
eight_bytes n = byte 56 n ∷ byte 48 n ∷ byte 40 n ∷ byte 32 n ∷ four_bytes n

-- A head in the shortest form. The argument is a natural number, so `n < 0` does not occur.
unfoldable pub encode_uint : ℕ → ℕ → Option Buffer
encode_uint major n =
    if leb n 23
    then some ((major * 32 + n) ∷ [])
    else if leb n 0xff
    then some ((major * 32 + 24) ∷ n ∷ [])
    else if leb n 0xffff
    then some ((major * 32 + 25) ∷ byte 8 n ∷ byte 0 n ∷ [])
    else if leb n 0xffffffff
    then some ((major * 32 + 26) ∷ four_bytes n)
    else if ltb js_safe_int n
    then none
    else some ((major * 32 + 27) ∷ eight_bytes n)

abbrev pub encode_int : ℤ → Option Buffer
encode_int (pos n) = encode_uint 0 n
encode_int (negsuc n) = encode_uint 1 n

-- `TextEncoder.encode`, a code point at a time.
abbrev pub utf8_char : ℕ → Buffer
utf8_char c =
    if ltb c 0x80
    then c ∷ []
    else if ltb c 0x800
    then (0xC0 + c / 64) ∷ (0x80 + c % 64) ∷ []
    else if ltb c 0x10000
    then (0xE0 + c / 4096) ∷ (0x80 + c / 64 % 64) ∷ (0x80 + c % 64) ∷ []
    else (0xF0 + c / 262144) ∷ (0x80 + c / 4096 % 64) ∷ (0x80 + c / 64 % 64) ∷ (0x80 + c % 64) ∷ []

abbrev pub utf8 : Text → Buffer
utf8 [] = []
utf8 (c ∷ cs) = utf8_char c ++ utf8 cs

abbrev pub is_ascii : ℕ → Bool
is_ascii c = ltb c 0x80

unfoldable pub encode_text : Text → Option Buffer
encode_text s = do head ← encode_uint 3 (length (utf8 s)); some (head ++ utf8 s)

module _ {F : Type 0} (bits : F → ℕ) where
  abbrev pub encode_float64 : F → Buffer
  encode_float64 f = 251 ∷ eight_bytes (bits f)

  abbrev pub encode_value : EntryValue F → Option Buffer
  encode_value (text s) = encode_text s
  encode_value (number (integer z)) = encode_int z
  encode_value (number (fraction f)) = some (encode_float64 f)
  encode_value (number infinite) = none

  -- The bytes of the keys and the values.
  unfoldable pub encode_entries : List (Text × EntryValue F) → Option (List (Buffer × Buffer))
  encode_entries [] = some []
  encode_entries ((k, v) ∷ es) = do
    key ← encode_text k
    value ← encode_value v
    rest ← encode_entries es
    some ((key, value) ∷ rest)

  -- `cmpBytes(a, b) <= 0`
  abbrev pub cmp_keys : Buffer × Buffer → Buffer × Buffer → Bool
  cmp_keys (a, v) (b, w) = codes_leb a b

  abbrev pub concat : List (Buffer × Buffer) → Buffer
  concat [] = []
  concat ((k, v) ∷ es) = k ++ (v ++ concat es)

  unfoldable pub encode_map : List (Text × EntryValue F) → Option Buffer
  encode_map es = do
    encoded ← encode_entries es
    head ← encode_uint 5 (length encoded)
    some (head ++ concat (order_by cmp_keys encoded))
