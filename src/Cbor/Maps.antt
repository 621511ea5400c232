-- ===== src/Cbor/Maps.antt =====
-- What is encoded in a map is read back (src/schemas/compute_metering_v1.ts).
use mathlib.Core.List.{append-nil, append_assoc}
use materios_gateway.Prelude.{
  ℕ, suc, ◌^◌, ◌<◌, ◌≡◌, refl, sym, Text, Bool, true, some, List, [], ◌∷◌, ◌++◌, All, length, arith,
}
use materios_gateway.Merkle.{Buffer}
use materios_gateway.Sql.{count, order_by}
use materios_gateway.Cbor.{
  EntryValue, text, ◌>>=◌, encode_uint, encode_entries, encode_map, concat, cmp_keys,
}
use materios_gateway.Cbor.Decode.{decode_value, decode_entries, decode_map}
use materios_gateway.Cbor.Entries.{
  Entry, IsPlainEntry, encode_entries-Encoded, length-encode_entries, Sorted, order_by-Sorted,
  IsCanonical, IsSorted-IsCanonical, order_by-canonical,
}
use materios_gateway.Cbor.Laws.{>>=-eq-some, decode_head-encode_uint, decode_value-encode_value}

module _ {F : Type 0} (bits : F → ℕ) (of_bits : ℕ → F) where
  entry_back :
      (k : Text) (v : EntryValue F) (es : List (Entry bits of_bits)) (key value : Buffer)
      (enc : List (Buffer × Buffer)) (rest : Buffer)
      → decode_value of_bits (key ++ (value ++ (concat bits enc ++ rest)))
        ≡ some (text k, value ++ (concat bits enc ++ rest))
      → decode_value of_bits (value ++ (concat bits enc ++ rest))
        ≡ some (v, concat bits enc ++ rest)
      → decode_entries of_bits (length es) (concat bits enc ++ rest) ≡ some (es, rest)
      → decode_entries of_bits (suc (length es)) (concat bits ((key, value) ∷ enc) ++ rest)
        ≡ some ((k, v) ∷ es, rest)
  unfolding decode_entries
  entry_back k v es key value enc rest p q r =
      rw
        (
          append_assoc key (value ++ concat bits enc) rest,
          append_assoc value (concat bits enc) rest,
          p,
        )
        (rw q (rw r refl))

  module _ (wide : (f : F) → bits f < 2 ^ 64) (inverse : (f : F) → of_bits (bits f) ≡ f) where
    decode_entries-encode_entries :
        (es : List (Entry bits of_bits)) (enc : List (Buffer × Buffer)) (rest : Buffer)
        → All (IsPlainEntry bits of_bits) es
        → encode_entries bits es ≡ some enc
        → decode_entries of_bits (length es) (concat bits enc ++ rest) ≡ some (es, rest)
    decode_entries-encode_entries [] enc rest h e =
        let same : [] ≡ enc = unfold encode_entries in cc e in
        rw (← same) (unfold decode_entries in refl)
    decode_entries-encode_entries ((k, v) ∷ es) enc rest ((ascii, plain), h) e =
        let d = encode_entries-Encoded bits of_bits k v es enc e in
        rw (← d.joined) (
          entry_back k v es d.key d.value d.rest rest
            (decode_value-encode_value bits of_bits wide inverse (text k) d.key _ ascii d.key_lem)
            (decode_value-encode_value bits of_bits wide inverse v d.value _ plain d.value_lem)
            (decode_entries-encode_entries es d.rest rest h d.rest_lem))

    length-count : (es : List (Entry bits of_bits)) → count (λ e. true) es ≡ length es
    length-count [] = refl
    length-count (e ∷ es) = omega (arith, length-count es)

    Sorted-length :
        (es : List (Entry bits of_bits)) (enc : List (Buffer × Buffer))
        (s : Sorted bits of_bits es (order_by (cmp_keys bits) enc))
        → encode_entries bits es ≡ some enc
        → length enc ≡ length s.ordered
    Sorted-length es enc s e = omega (
      arith,
      length-encode_entries bits of_bits es enc e,
      s.same (λ x. true),
      length-count es,
      length-count s.ordered,
    )

    sorted_back :
        (n : ℕ) (es : List (Entry bits of_bits)) (enc : List (Buffer × Buffer)) (head : Buffer)
        → All (IsPlainEntry bits of_bits) es
        → n ≡ length es
        → encode_entries bits es ≡ some enc
        → encode_uint 5 n ≡ some head
        → decode_map of_bits (head ++ concat bits enc) ≡ some (es, [])
    unfolding decode_map
    sorted_back n es enc head h same e found =
        rw (decode_head-encode_uint 5 n head (concat bits enc) found) (
          rw (same, sym (append-nil (concat bits enc)))
            (decode_entries-encode_entries es enc [] h e))

    -- A map that is written is read back: its entries, each as often as it was given, in the order
    -- of the bytes of their encoded keys, and nothing else; if the texts are ASCII, and the bit
    -- patterns of fractions are of 64 bits and stand for them. What holds of all entries holds of all
    -- that are read.
    pub decode_map-encode_map :
        (es : List (Entry bits of_bits)) (bs : Buffer)
        → All (IsPlainEntry bits of_bits) es
        → encode_map bits es ≡ some bs
        → (es' : List (Entry bits of_bits)) × (decode_map of_bits bs ≡ some (es', []))
          × ((p : Entry bits of_bits → Bool) → count p es' ≡ count p es)
          × ((P : Entry bits of_bits → Type 0) → All P es → All P es')
          × IsCanonical bits of_bits es'
    unfolding encode_map
    decode_map-encode_map es bs h e =
        let (enc, found, e1) =
          >>=-eq-some (encode_entries bits es)
            (λ enc. encode_uint 5 (length enc) >>= λ head.
              some (head ++ concat bits (order_by (cmp_keys bits) enc)))
            e in
        let (head, headed, e2) =
          >>=-eq-some (encode_uint 5 (length enc))
            (λ head. some (head ++ concat bits (order_by (cmp_keys bits) enc))) e1 in
        let same : head ++ concat bits (order_by (cmp_keys bits) enc) ≡ bs = cc in
        let s = order_by-Sorted bits of_bits es enc found in
        (
          s.ordered,
          rw (← same) (
              sorted_back (length enc) s.ordered (order_by (cmp_keys bits) enc) head
                (s.keep (IsPlainEntry bits of_bits) h) (Sorted-length es enc s found) s.encoded
                headed),
          s.same,
          s.keep,
          IsSorted-IsCanonical bits of_bits s.ordered (order_by (cmp_keys bits) enc) s.encoded
              (order_by-canonical bits of_bits enc),
        )
