-- ===== src/Cbor/Entries.antt =====
-- The entries of a map and their encodings, in the order of the encoded keys
-- (src/schemas/compute_metering_v1.ts).
use mathlib.Core.Path.{subst}
use materios_gateway.Prelude.{
  ℕ, ◌≡◌, refl, sym, Text, Bool, true, some, List, [], ◌∷◌, All, length, arith, codes_leb,
  codes_leb_total, codes_leb_trans, Bool-cases, inl, inr,
}
use materios_gateway.Merkle.{Buffer, every}
use materios_gateway.Sql.{count, insert_by, order_by}
use materios_gateway.Sql.Order.{IsSorted, order_by-IsSorted}
use materios_gateway.Cbor.{
  EntryValue, ◌>>=◌, is_ascii, encode_text, encode_value, encode_entries, cmp_keys,
}
use materios_gateway.Cbor.Laws.{IsPlain, >>=-eq-some}

module _ {F : Type 0} (bits : F → ℕ) (of_bits : ℕ → F) where
  abbrev pub Entry : Type 0
  Entry = Text × EntryValue F

  abbrev pub IsPlainEntry : Entry → Type 0
  IsPlainEntry (k, v) = (every is_ascii k ≡ true) × IsPlain bits of_bits v

  -- The entries that an encoding stands for.
  pub record Encoded (k : Text) (v : EntryValue F) (es : List Entry) (enc : List (Buffer × Buffer))
      : Type 0 where
    pub key : Buffer
    pub value : Buffer
    pub rest : List (Buffer × Buffer)
    pub key_lem : encode_text k ≡ some key
    pub value_lem : encode_value bits v ≡ some value
    pub rest_lem : encode_entries bits es ≡ some rest
    pub joined : (key, value) ∷ rest ≡ enc

  pub encode_entries-Encoded :
      (k : Text) (v : EntryValue F) (es : List Entry) (enc : List (Buffer × Buffer))
      → encode_entries bits ((k, v) ∷ es) ≡ some enc
      → Encoded k v es enc
  unfolding encode_entries
  encode_entries-Encoded k v es enc e =
      let (key, k_lem, e1) =
        >>=-eq-some (encode_text k)
          (λ key. encode_value bits v >>= λ value.
            encode_entries bits es >>= λ rest. some ((key, value) ∷ rest))
          e in
      let (value, v_lem, e2) =
        >>=-eq-some (encode_value bits v)
          (λ value. encode_entries bits es >>= λ rest. some ((key, value) ∷ rest)) e1 in
      let (rest, r_lem, e3) =
        >>=-eq-some (encode_entries bits es) (λ rest. some ((key, value) ∷ rest)) e2 in
      record {
        key = key;
        value = value;
        rest = rest;
        key_lem = k_lem;
        value_lem = v_lem;
        rest_lem = r_lem;
        joined = cc;
      }

  encode_entries-cons :
      (k : Text) (v : EntryValue F) (es : List Entry) (key value : Buffer)
      (rest : List (Buffer × Buffer))
      → encode_text k ≡ some key
      → encode_value bits v ≡ some value
      → encode_entries bits es ≡ some rest
      → encode_entries bits ((k, v) ∷ es) ≡ some ((key, value) ∷ rest)
  unfolding encode_entries
  encode_entries-cons k v es key value rest p q r = rw (p, q, r) refl

  pub length-encode_entries :
      (es : List Entry) (enc : List (Buffer × Buffer))
      → encode_entries bits es ≡ some enc
      → length enc ≡ length es
  length-encode_entries [] enc e =
      let same : [] ≡ enc = unfold encode_entries in cc e in rw (← same) refl
  length-encode_entries ((k, v) ∷ es) enc e =
      let d = encode_entries-Encoded k v es enc e in
      rw (← d.joined, length-encode_entries es d.rest d.rest_lem) refl

  -- The entries in the order of an encoding's keys.
  pub record Sorted (es : List Entry) (enc : List (Buffer × Buffer)) : Type 1 where
    pub ordered : List Entry
    pub encoded : encode_entries bits ordered ≡ some enc
    pub same : (p : Entry → Bool) → count p ordered ≡ count p es
    pub keep : (P : Entry → Type 0) → All P es → All P ordered

  insert_by-Sorted :
      (k : Text) (v : EntryValue F) (key value : Buffer) (es : List Entry)
      (enc : List (Buffer × Buffer))
      → encode_text k ≡ some key
      → encode_value bits v ≡ some value
      → encode_entries bits es ≡ some enc
      → Sorted ((k, v) ∷ es) (insert_by (cmp_keys bits) (key, value) enc)
  insert_by-Sorted k v key value [] enc p q r =
      let same : [] ≡ enc = unfold encode_entries in cc r in
      rw (← same) record {
        ordered = (k, v) ∷ [];
        encoded = encode_entries-cons k v [] key value [] p q (unfold encode_entries in refl);
        same = λ t. refl;
        keep = λ P h. h;
      }
  insert_by-Sorted k v key value ((j, w) ∷ es) enc p q r =
      let d = encode_entries-Encoded j w es enc r in
      rw (← d.joined) (elim (Bool-cases (codes_leb key d.key)) [
        | inl first ↦ simp first record {
          ordered = (k, v) ∷ (j, w) ∷ es;
          encoded =
              encode_entries-cons k v ((j, w) ∷ es) key value ((d.key, d.value) ∷ d.rest) p q
                (encode_entries-cons j w es d.key d.value d.rest d.key_lem d.value_lem d.rest_lem);
          same = λ t. refl;
          keep = λ P h. h;
        }
        | inr later ↦
            let ih = insert_by-Sorted k v key value es d.rest p q d.rest_lem in
            simp later record {
              ordered = (j, w) ∷ ih.ordered;
              encoded =
                  encode_entries-cons j w ih.ordered d.key d.value
                    (insert_by (cmp_keys bits) (key, value) d.rest) d.key_lem d.value_lem
                    ih.encoded;
              same = λ t. omega (arith, ih.same t);
              keep = λ P h. (h.1.0, ih.keep P (h.0, h.1.1));
            }
      ])

  pub order_by-Sorted :
      (es : List Entry) (enc : List (Buffer × Buffer))
      → encode_entries bits es ≡ some enc
      → Sorted es (order_by (cmp_keys bits) enc)
  order_by-Sorted [] enc r =
      let same : [] ≡ enc = unfold encode_entries in cc r in
      rw (← same) record {
        ordered = [];
        encoded = unfold encode_entries in refl;
        same = λ t. refl;
        keep = λ P h. h;
      }
  order_by-Sorted ((k, v) ∷ es) enc r =
      let d = encode_entries-Encoded k v es enc r in
      let ih = order_by-Sorted es d.rest d.rest_lem in
      let next =
        insert_by-Sorted k v d.key d.value ih.ordered (order_by (cmp_keys bits) d.rest) d.key_lem
          d.value_lem ih.encoded in
      rw (← d.joined) record {
        ordered = next.ordered;
        encoded = next.encoded;
        same = λ t. omega (arith, next.same t, ih.same t);
        keep = λ P h. next.keep P (h.0, ih.keep P h.1);
      }

  -- The encoded key of the first entry is at most that of the second, byte by byte.
  abbrev pub IsBefore : Entry → Entry → Type 0
  IsBefore (k, v) (j, w) =
      (a : Buffer) × (b : Buffer) × (encode_text k ≡ some a)
      × (encode_text j ≡ some b)
      × (codes_leb a b ≡ true)

  abbrev pub IsCanonical : List Entry → Type 0
  IsCanonical [] = Unit {0}
  IsCanonical (x ∷ xs) = All (IsBefore x) xs × IsCanonical xs

  All-IsBefore :
      (k : Text) (v : EntryValue F) (key : Buffer) (es : List Entry) (enc : List (Buffer × Buffer))
      → encode_text k ≡ some key
      → encode_entries bits es ≡ some enc
      → All (λ y. codes_leb key y.0 ≡ true) enc
      → All (IsBefore (k, v)) es
  All-IsBefore k v key [] enc p e h = tt
  All-IsBefore k v key ((j, w) ∷ es) enc p e h =
      let d = encode_entries-Encoded j w es enc e in
      let (first, later) = subst (All (λ y. codes_leb key y.0 ≡ true)) (sym d.joined) h in
      ((key, d.key, p, d.key_lem, first), All-IsBefore k v key es d.rest p d.rest_lem later)

  pub IsSorted-IsCanonical :
      (es : List Entry) (enc : List (Buffer × Buffer))
      → encode_entries bits es ≡ some enc
      → IsSorted (cmp_keys bits) enc
      → IsCanonical es
  IsSorted-IsCanonical [] enc e h = tt
  IsSorted-IsCanonical ((k, v) ∷ es) enc e h =
      let d = encode_entries-Encoded k v es enc e in
      let (first, later) = subst (IsSorted (cmp_keys bits)) (sym d.joined) h in
      (
        All-IsBefore k v d.key es d.rest d.key_lem d.rest_lem first,
        IsSorted-IsCanonical es d.rest d.rest_lem later,
      )

  -- The order by encoded keys is one.
  pub order_by-canonical :
      (enc : List (Buffer × Buffer)) → IsSorted (cmp_keys bits) (order_by (cmp_keys bits) enc)
  order_by-canonical enc =
      order_by-IsSorted (cmp_keys bits) (λ a b h. codes_leb_total a.0 b.0 h)
        (λ a b c h k. codes_leb_trans a.0 b.0 c.0 h k) enc
