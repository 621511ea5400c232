-- ===== src/Cbor/Tests.antt =====
-- Encodings of concrete maps, and the theorem at such a map. The fractions are a single one.
use materios_gateway.Prelude.{
  ℕ, ◌^◌, ◌≡◌, refl, Text, codes, Bool, none, some, List, [], ◌∷◌, All, arith,
}
use materios_gateway.Merkle.{Buffer}
use materios_gateway.Sql.{count}
use materios_gateway.Cbor.{
  pos, negsuc, integer, fraction, EntryValue, number, encode_uint, encode_text, encode_entries,
  encode_map,
}
use materios_gateway.Cbor.Decode.{decode_head, decode_value, decode_entries, decode_map}
use materios_gateway.Cbor.Entries.{IsCanonical}
use materios_gateway.Cbor.Maps.{decode_map-encode_map}

abbrev Half : Type 0
Half = Unit {0}

abbrev half_bits : Half → ℕ
half_bits f = 0x3FE0000000000000

abbrev of_bits : ℕ → Half
of_bits n = tt

abbrev sample : List (Text × EntryValue Half)
sample =
    (codes "ab", number (integer (pos 500)))
    ∷ (codes "b", number (fraction tt))
    ∷ (codes "a", number (integer (negsuc 4)))
    ∷ []

abbrev sample_bytes : Buffer
sample_bytes =
    0xA3 ∷ 0x61 ∷ b'a' ∷ 0x24 ∷ 0x61 ∷ b'b' ∷ 0xFB ∷ 0x3F ∷ 0xE0 ∷ 0 ∷ 0 ∷ 0 ∷ 0 ∷ 0 ∷ 0 ∷ 0x62
    ∷ b'a' ∷ b'b' ∷ 0x19 ∷ 1 ∷ 0xF4 ∷ []

sample_encoded : encode_map half_bits sample ≡ some sample_bytes
unfolding encode_map encode_entries encode_text encode_uint
sample_encoded = refl

sample_decoded :
    decode_map of_bits sample_bytes
    ≡ some (
      (codes "a", number (integer (negsuc 4)))
          ∷ (codes "b", number (fraction tt))
          ∷ (codes "ab", number (integer (pos 500)))
          ∷ [],
      [],
    )
unfolding decode_map decode_entries decode_value decode_head
sample_decoded = refl

unsafe_integer : encode_uint 0 (2 ^ 53) ≡ none
unfolding encode_uint
unsafe_integer = refl

decode_map-encode_map_example :
    (es : List (Text × EntryValue Half)) × (decode_map of_bits sample_bytes ≡ some (es, []))
    × ((p : Text × EntryValue Half → Bool) → count p es ≡ count p sample)
    × ((P : Text × EntryValue Half → Type 0) → All P sample → All P es)
    × IsCanonical half_bits of_bits es
decode_map-encode_map_example =
    decode_map-encode_map half_bits of_bits (λ f. omega arith) (λ f. refl) sample sample_bytes
      ((refl, tt), ((refl, tt), ((refl, tt), tt))) sample_encoded
