-- ===== src/Validator/Ensures.antt =====
-- What a chain of checks ensures, and the rule for each kind of field
-- (src/schemas/compute_metering_v1.ts).
use materios_gateway.Prelude.{
  ℕ, ◌+◌, ◌-◌, ◌<◌, ◌≤◌, ◌≡◌, ◌≢◌, refl, ap, ◌∙◌, ltb→lt, String, Text, text_eq, text_eq_iff, Bool,
  true, false, not, Option, none, some, leb, ltb, arith,
}
use mathlib.Core.Path.{subst}
use materios_gateway.Cbor.{pos, negsuc, Number, integer, fraction, infinite, js_safe_int}
use materios_gateway.Validator.Checks.{
  Check, pass, fail, thrown, ◌>>=◌, Code, guard, Json, string, numeric, another, whole, real, root,
  text_field, schema_field, id_field, hex_field, period_start_field, period_end_field, whole_number,
  real_number, number_of, numeric_field, is_id, is_hex, max_period_ms, future_skew_ms,
}

-- A result that passes has `P`; an error is thrown only under `T`.
pub data Ensures {ℓ κ} {A : Type ℓ} (P : A → Type κ) (T : Type 0) : Check A → Type (ℓ ⊔ κ) where
  passes : {a : A} → P a → Ensures P T (pass a)
  fails : {c : Code} {k : Option String} → Ensures P T (fail c k)
  throws : T → Ensures P T thrown

module _ {ℓ κ μ ν} {A : Type ℓ} {B : Type κ} {P : A → Type μ} {Q : B → Type ν} {T : Type 0} where
  pub Ensures-bind :
      {m : Check A} {f : A → Check B}
      → Ensures P T m
      → ((a : A) → P a → Ensures Q T (f a))
      → Ensures Q T (m >>= f)
  unfolding ◌>>=◌
  Ensures-bind (passes h) k = k _ h
  Ensures-bind fails k = fails
  Ensures-bind (throws t) k = throws t

not-false : (b : Bool) → not b ≡ true → b ≡ false
not-false b h = ground arith

module _ {ℓ κ μ} {A : Type ℓ} {P : A → Type κ} {Q : A → Type μ} {T : Type 0} where
  pub Ensures-mono : {m : Check A} → Ensures P T m → ((a : A) → P a → Q a) → Ensures Q T m
  Ensures-mono (passes h) k = passes (k _ h)
  Ensures-mono fails k = fails
  Ensures-mono (throws t) k = throws t

module _ {ℓ κ} {A : Type ℓ} {P : A → Type κ} {T : Type 0} where
  pub Ensures-pass_at : {m : Check A} {a : A} → Ensures P T m → m ≡ pass a → P a
  Ensures-pass_at (passes h) e = subst P (cc) h
  Ensures-pass_at fails e = absurd (cc)
  Ensures-pass_at (throws t) e = absurd (cc)

  pub Ensures-throws : {U : Type 0} {m : Check A} → (T → U) → Ensures P T m → Ensures P U m
  Ensures-throws f (passes h) = passes h
  Ensures-throws f fails = fails
  Ensures-throws f (throws t) = throws (f t)

  pub Ensures-ne_thrown : {m : Check A} → Ensures P T m → (T → ⊥) → m ≢ thrown
  Ensures-ne_thrown (passes h) k = λ e. cc
  Ensures-ne_thrown fails k = λ e. cc
  Ensures-ne_thrown (throws t) k = λ e. k t

module _ {F : Type 0} where
  -- A whole number in the record.
  abbrev pub Spells : Option (Json F) → ℕ → Type 0
  Spells o n = o ≡ some (numeric (integer (pos n)))

  abbrev pub IsWhole : Number F → Type 0
  IsWhole (integer (pos n)) = n ≤ js_safe_int
  IsWhole (integer (negsuc n)) = ⊥
  IsWhole (fraction f) = ⊥
  IsWhole infinite = ⊥

  -- A finite number that is not below zero.
  abbrev pub IsReal : (F → Bool) → Number F → Type 0
  IsReal is_negative (integer (pos n)) = Unit {0}
  IsReal is_negative (integer (negsuc n)) = ⊥
  IsReal is_negative (fraction f) = is_negative f ≡ false
  IsReal is_negative infinite = ⊥

module _ {T : Type 0} where
  pub guard-Ensures : (b : Bool) (c : Code) (k : String) → Ensures (λ u. b ≡ true) T (guard b c k)
  unfolding guard
  guard-Ensures true c k = passes refl
  guard-Ensures false c k = fails

  module _ {F : Type 0} where
    pub root-Ensures :
        (raw : Option (String → Option (Json F)))
        → Ensures (λ fields. raw ≡ some fields) T (root raw)
    unfolding root
    root-Ensures none = fails
    root-Ensures (some fields) = passes refl

    pub text_field-Ensures :
        (k : String) (o : Option (Json F)) → Ensures (λ t. o ≡ some (string t)) T (text_field k o)
    unfolding text_field
    text_field-Ensures k none = fails
    text_field-Ensures k (some (string t)) = passes refl
    text_field-Ensures k (some (numeric n)) = fails
    text_field-Ensures k (some another) = fails

    pub schema_field-Ensures :
        (version : Text) (o : Option (Json F))
        → Ensures (λ u. o ≡ some (string version)) T (schema_field version o)
    unfolding schema_field
    schema_field-Ensures version o =
        Ensures-bind (text_field-Ensures "schema_version" o) (λ t given.
          Ensures-mono
            (guard-Ensures (text_eq t version) Code.wrong_schema_version "schema_version")
            (λ u e. given ∙ ap (λ x. some (string x)) ((text_eq_iff t version).0 e)))

    pub id_field-Ensures :
        (k : String) (o : Option (Json F))
        → Ensures (λ t. (o ≡ some (string t)) × (is_id t ≡ true)) T (id_field k o)
    unfolding id_field
    id_field-Ensures k o = Ensures-bind (text_field-Ensures k o) (λ t given.
        Ensures-bind (guard-Ensures (is_id t) Code.id_format k) (λ u e. passes (given, e)))

    pub hex_field-Ensures :
        (n : ℕ) (k : String) (o : Option (Json F))
        → Ensures (λ t. (o ≡ some (string t)) × (is_hex n t ≡ true)) T (hex_field n k o)
    unfolding hex_field
    hex_field-Ensures n k o = Ensures-bind (text_field-Ensures k o) (λ t given.
        Ensures-bind (guard-Ensures (is_hex n t) Code.hex_format k) (λ u e. passes (given, e)))

    pub period_start_field-Ensures :
        (o : Option (Json F)) → Ensures (λ n. Spells o n × (0 < n)) T (period_start_field o)
    unfolding period_start_field
    period_start_field-Ensures none = fails
    period_start_field-Ensures (some (numeric (integer (pos n)))) =
        Ensures-bind (guard-Ensures (ltb 0 n) Code.period_invalid "period_start")
          (λ u e. passes (refl, ltb→lt 0 n e))
    period_start_field-Ensures (some (numeric (integer (negsuc n)))) = fails
    period_start_field-Ensures (some (numeric (fraction f))) = fails
    period_start_field-Ensures (some (numeric infinite)) = fails
    period_start_field-Ensures (some (string t)) = fails
    period_start_field-Ensures (some another) = fails

    pub period_end_field-Ensures :
        (start now : ℕ) (o : Option (Json F))
        → Ensures
            (λ n.
              Spells o n × (start < n) × (n ≤ start + max_period_ms) × (n ≤ now + future_skew_ms))
            T
            (period_end_field start now o)
    unfolding period_end_field
    period_end_field-Ensures start now none = fails
    period_end_field-Ensures start now (some (numeric (integer (pos n)))) =
        Ensures-bind (guard-Ensures (not (leb n start)) Code.period_invalid "period_end")
          (λ u above.
            Ensures-bind
              (guard-Ensures (not (ltb max_period_ms (n - start))) Code.period_invalid "period_end")
              (λ u' short.
                Ensures-bind
                  (guard-Ensures (not (ltb (now + future_skew_ms) n)) Code.period_invalid
                    "period_end")
                  (λ u'' near. passes (refl, ground arith, ground arith, ground arith))))
    period_end_field-Ensures start now (some (numeric (integer (negsuc n)))) = fails
    period_end_field-Ensures start now (some (numeric (fraction f))) = fails
    period_end_field-Ensures start now (some (numeric infinite)) = fails
    period_end_field-Ensures start now (some (string t)) = fails
    period_end_field-Ensures start now (some another) = fails

    module _ (is_negative : F → Bool) where
      whole_number-Ensures :
          (k : String) (n : Number F)
          → Ensures (λ v. (n ≡ v) × IsWhole v) T (whole_number is_negative k n)
      unfolding whole_number
      whole_number-Ensures k (integer (pos n)) =
          Ensures-bind (guard-Ensures (not (ltb js_safe_int n)) Code.int_overflow k)
            (λ u e. passes (refl, ground arith))
      whole_number-Ensures k (integer (negsuc n)) = fails
      whole_number-Ensures k (fraction f) = fails
      whole_number-Ensures k infinite = fails

      real_number-Ensures :
          (over : Number F → Bool) (k : String) (n : Number F)
          → Ensures
              (λ v. (n ≡ v) × IsReal is_negative v × (over v ≡ false))
              T
              (real_number is_negative over k n)
      unfolding real_number
      real_number-Ensures over k (integer (pos n)) =
          Ensures-bind (guard-Ensures (not (over (integer (pos n)))) Code.bound_exceeded k)
            (λ u e. passes (refl, tt, not-false _ e))
      real_number-Ensures over k (integer (negsuc n)) = fails
      real_number-Ensures over k (fraction f) =
          Ensures-bind (guard-Ensures (not (is_negative f)) Code.negative_value k) (λ u e.
            Ensures-bind (guard-Ensures (not (over (fraction f))) Code.bound_exceeded k)
              (λ u' e'. passes (refl, not-false _ e, not-false _ e')))
      real_number-Ensures over k infinite = fails

      pub whole_field-Ensures :
          (over : Number F → Bool) (k : String) (o : Option (Json F))
          → Ensures
              (λ v. (o ≡ some (numeric v)) × IsWhole v)
              T
              (numeric_field is_negative whole over k o)
      unfolding numeric_field number_of
      whole_field-Ensures over k none = fails
      whole_field-Ensures over k (some (numeric n)) =
          Ensures-mono (whole_number-Ensures k n) (λ v h. (ap (λ x. some (numeric x)) h.0, h.1))
      whole_field-Ensures over k (some (string t)) = fails
      whole_field-Ensures over k (some another) = fails

      pub real_field-Ensures :
          (over : Number F → Bool) (k : String) (o : Option (Json F))
          → Ensures
              (λ v. (o ≡ some (numeric v)) × IsReal is_negative v × (over v ≡ false))
              T
              (numeric_field is_negative real over k o)
      unfolding numeric_field number_of
      real_field-Ensures over k none = fails
      real_field-Ensures over k (some (numeric n)) =
          Ensures-mono (real_number-Ensures over k n)
            (λ v h. (ap (λ x. some (numeric x)) h.0, h.1, h.2))
      real_field-Ensures over k (some (string t)) = fails
      real_field-Ensures over k (some another) = fails
