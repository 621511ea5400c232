-- ===== src/Validator/Checks.antt =====
-- The checks of single fields (src/schemas/compute_metering_v1.ts). A JSON value that is no text and
-- no number is not looked into. `none` is a field that is missing.
use materios_gateway.Prelude.{
  ℕ, ◌+◌, ◌-◌, String, Text, text_eq, Bool, true, false, not, ◌&&◌, ◌||◌, Option, none, some,
  length, leb, ltb, ◌==◌,
}
use materios_gateway.Merkle.{every}
use materios_gateway.Auth.Upload.{is_digit}
use materios_gateway.Billing.Classify.{is_lower_hex}
use materios_gateway.Cbor.{pos, negsuc, Number, integer, fraction, infinite, js_safe_int}

pub data Code : Type 0 where
  missing_field wrong_type wrong_schema_version id_format period_invalid not_monotonic
        negative_value int_overflow bound_exceeded hex_format signature_invalid :
      Code

-- A failure has its code and its field, if it is about one; `thrown` is an error that is not caught.
pub data Check {ℓ} (A : Type ℓ) : Type ℓ where
  pass : A → Check A
  fail : Code → Option String → Check A
  thrown : Check A

infixl 5 ◌>>=◌
unfoldable pub ◌>>=◌ {ℓ κ} : {A : Type ℓ} {B : Type κ} → Check A → (A → Check B) → Check B
pass a >>= f = f a
fail c k >>= f = fail c k
thrown >>= f = thrown

unfoldable pub guard : Bool → Code → String → Check (Unit {0})
guard true c k = pass tt
guard false c k = fail c (some k)

pub data Json (F : Type 0) : Type 0 where
  string : Text → Json F
  numeric : Number F → Json F
  -- null, a Boolean, an array or an object
  another : Json F

abbrev pub max_period_ms : ℕ
max_period_ms = 86_400_000

abbrev pub future_skew_ms : ℕ
future_skew_ms = 60_000

abbrev pub is_id_char : ℕ → Bool
is_id_char c = (leb b'a' c && leb c b'z') || (is_digit c || c == b'-')

-- `/^[a-z0-9-]{4,64}$/`
abbrev pub is_id : Text → Bool
is_id t = every is_id_char t && (leb 4 (length t) && leb (length t) 64)

-- `/^[0-9a-f]{n}$/`
abbrev pub is_hex : ℕ → Text → Bool
is_hex n t = length t == n && every is_lower_hex t

-- `"int"` and `"float"`
pub data Kind : Type 0 where
  whole real : Kind

module _ {F : Type 0} where
  unfoldable pub root : Option (String → Option (Json F)) → Check (String → Option (Json F))
  root none = fail wrong_type none
  root (some fields) = pass fields

  unfoldable pub text_field : String → Option (Json F) → Check Text
  text_field k none = fail missing_field (some k)
  text_field k (some (string t)) = pass t
  text_field k (some (numeric n)) = fail wrong_type (some k)
  text_field k (some another) = fail wrong_type (some k)

  unfoldable pub schema_field : Text → Option (Json F) → Check (Unit {0})
  schema_field version o = do
    t ← text_field "schema_version" o
    guard (text_eq t version) wrong_schema_version "schema_version"

  unfoldable pub id_field : String → Option (Json F) → Check Text
  id_field k o = do t ← text_field k o; _ ← guard (is_id t) id_format k; pass t

  unfoldable pub hex_field : ℕ → String → Option (Json F) → Check Text
  hex_field n k o = do t ← text_field k o; _ ← guard (is_hex n t) hex_format k; pass t

  -- An integer above zero.
  unfoldable pub period_start_field : Option (Json F) → Check ℕ
  period_start_field none = fail missing_field (some "period_start")
  period_start_field (some (numeric (integer (pos n)))) = do
    _ ← guard (ltb 0 n) period_invalid "period_start"
    pass n
  period_start_field (some (numeric (integer (negsuc n)))) =
      fail period_invalid (some "period_start")
  period_start_field (some (numeric (fraction f))) = fail wrong_type (some "period_start")
  period_start_field (some (numeric infinite)) = fail wrong_type (some "period_start")
  period_start_field (some (string t)) = fail wrong_type (some "period_start")
  period_start_field (some another) = fail wrong_type (some "period_start")

  unfoldable pub period_end_field : ℕ → ℕ → Option (Json F) → Check ℕ
  period_end_field start now none = fail missing_field (some "period_end")
  period_end_field start now (some (numeric (integer (pos n)))) = do
    _ ← guard (not (leb n start)) period_invalid "period_end"
    _ ← guard (not (ltb max_period_ms (n - start))) period_invalid "period_end"
    _ ← guard (not (ltb (now + future_skew_ms) n)) period_invalid "period_end"
    pass n
  period_end_field start now (some (numeric (integer (negsuc n)))) =
      fail period_invalid (some "period_end")
  period_end_field start now (some (numeric (fraction f))) = fail wrong_type (some "period_end")
  period_end_field start now (some (numeric infinite)) = fail wrong_type (some "period_end")
  period_end_field start now (some (string t)) = fail wrong_type (some "period_end")
  period_end_field start now (some another) = fail wrong_type (some "period_end")

  module _ (is_negative : F → Bool) where
    unfoldable pub whole_number : String → Number F → Check (Number F)
    whole_number k (integer (negsuc n)) = fail negative_value (some k)
    whole_number k (integer (pos n)) = do
      _ ← guard (not (ltb js_safe_int n)) int_overflow k
      pass (integer (pos n))
    whole_number k (fraction f) = fail wrong_type (some k)
    whole_number k infinite = fail wrong_type (some k)

    unfoldable pub real_number : (Number F → Bool) → String → Number F → Check (Number F)
    real_number over k (integer (negsuc n)) = fail negative_value (some k)
    real_number over k (integer (pos n)) = do
      _ ← guard (not (over (integer (pos n)))) bound_exceeded k
      pass (integer (pos n))
    real_number over k (fraction f) = do
      _ ← guard (not (is_negative f)) negative_value k
      _ ← guard (not (over (fraction f))) bound_exceeded k
      pass (fraction f)
    real_number over k infinite = fail wrong_type (some k)

    unfoldable pub number_of : Kind → (Number F → Bool) → String → Number F → Check (Number F)
    number_of whole over k n = whole_number k n
    number_of real over k n = real_number over k n

    -- A pass of the loop over the numeric fields; `over` is the comparison with the cap.
    unfoldable pub numeric_field :
        Kind → (Number F → Bool) → String → Option (Json F) → Check (Number F)
    numeric_field kind over k none = fail missing_field (some k)
    numeric_field kind over k (some (numeric n)) = number_of kind over k n
    numeric_field kind over k (some (string t)) = fail wrong_type (some k)
    numeric_field kind over k (some another) = fail wrong_type (some k)
