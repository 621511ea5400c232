-- ===== src/Cbor/Decode.antt =====
-- A decoder of the CBOR that the encoder of src/schemas/compute_metering_v1.ts writes, by RFC 8949: it
-- is no code of the gateway, but what a reader of its records does.
use materios_gateway.Prelude.{
  ℕ, zero, suc, ◌+◌, ◌*◌, ◌/◌, ◌%◌, Text, Option, none, some, List, [], ◌∷◌, length, take, drop,
  leb, ◌==◌, if◌then◌else◌,
}
use materios_gateway.Merkle.{Buffer}
use materios_gateway.Cbor.{pos, negsuc, integer, fraction, EntryValue, text, number, ◌>>=◌}

-- A number of so many bytes, the first of them the greatest.
abbrev pub read : ℕ → ℕ → Buffer → Option (ℕ × Buffer)
read zero acc bs = some (acc, bs)
read (suc k) acc [] = none
read (suc k) acc (b ∷ bs) = read k (acc * 256 + b) bs

abbrev pub argument : ℕ → Buffer → Option (ℕ × Buffer)
argument info bs =
    if leb info 23
    then some (info, bs)
    else if info == 24
    then read 1 0 bs
    else if info == 25
    then read 2 0 bs
    else if info == 26
    then read 4 0 bs
    else if info == 27
    then read 8 0 bs
    else none

-- The major type, the argument and what follows.
unfoldable pub decode_head : Buffer → Option (ℕ × ℕ × Buffer)
decode_head [] = none
decode_head (b ∷ bs) = do (n, rest) ← argument (b % 32) bs; some (b / 32, n, rest)

abbrev pub text_of : ℕ → Buffer → Option (Text × Buffer)
text_of n bs = if leb n (length bs) then some (take n bs, drop n bs) else none

module _ {F : Type 0} (of_bits : ℕ → F) where
  abbrev pub item : ℕ × ℕ × Buffer → Option (EntryValue F × Buffer)
  item (major, n, bs) =
      if major == 0
      then some (number (integer (pos n)), bs)
      else if major == 1
      then some (number (integer (negsuc n)), bs)
      else if major == 3
      then (do (s, rest) ← text_of n bs; some (text s, rest))
      else if major == 7
      then some (number (fraction (of_bits n)), bs)
      else none

  unfoldable pub decode_value : Buffer → Option (EntryValue F × Buffer)
  decode_value bs = do head ← decode_head bs; item head

  abbrev pub key_of : EntryValue F → Option Text
  key_of (text s) = some s
  key_of (number n) = none

  unfoldable pub decode_entries : ℕ → Buffer → Option (List (Text × EntryValue F) × Buffer)
  decode_entries zero bs = some ([], bs)
  decode_entries (suc k) bs = do
    (key, rest) ← decode_value bs
    name ← key_of key
    (value, rest') ← decode_value rest
    (es, rest'') ← decode_entries k rest'
    some ((name, value) ∷ es, rest'')

  abbrev entries_of : ℕ × ℕ × Buffer → Option (List (Text × EntryValue F) × Buffer)
  entries_of (major, n, bs) = if major == 5 then decode_entries n bs else none

  unfoldable pub decode_map : Buffer → Option (List (Text × EntryValue F) × Buffer)
  decode_map bs = do head ← decode_head bs; entries_of head
