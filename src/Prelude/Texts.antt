-- ===== src/Prelude/Texts.antt =====
-- Texts: equality, code points, and the order of bytes that SQLite's BINARY collation uses.
use Prim.Native.Nat.{ℕ, ◌+◌, compare, Ordering}
use Prim.Native.Char.{code}
use Prim.Native.String.{String}
use mathlib.Core.Path.{◌≡◌, refl}
use mathlib.Core.Logic.{◌≢◌, ◌↔◌}
use mathlib.Core.Bool.{Bool, true, false, ◌&&◌}
use mathlib.Core.List.{List, [], ◌∷◌}
use native.Mathlib.Omega.{arith}
use materios_gateway.Prelude.Tests.{leb, ◌==◌, if◌then◌else◌}
pub use text.Mathlib.Text.{◌==◌ as str_eq}
pub use text.Mathlib.TextEquality.{eq_iff}
pub use text.Mathlib.TextPositions.{eq_refl}

abbrev pub codes : String → List ℕ
codes String.[] = []
codes (String.◌∷◌ c s) = code c ∷ codes s

pub str_eq-ne : (a b : String) → a ≢ b → str_eq a b ≡ false
str_eq-ne a b h = ground (arith, eq_iff a b)

pub str_eq-false-ne : (a b : String) → str_eq a b ≡ false → a ≢ b
str_eq-false-ne a b h e = absurd (ground (arith, eq_iff a b))

-- `<=` of the codes, the first difference deciding
abbrev pub codes_leb : List ℕ → List ℕ → Bool
codes_leb [] bs = true
codes_leb (a ∷ as') [] = false
codes_leb (a ∷ as') (b ∷ bs) = elim (compare a b) [
  | Ordering.lt ↦ true
  | Ordering.eq ↦ codes_leb as' bs
  | Ordering.gt ↦ false
]

pub text_leb : String → String → Bool
text_leb a b = codes_leb (codes a) (codes b)

pub codes_leb_total : (as' bs : List ℕ) → codes_leb as' bs ≡ false → codes_leb bs as' ≡ true
codes_leb_total [] bs h = absurd (cc)
codes_leb_total (a ∷ as') [] h = refl
codes_leb_total (a ∷ as') (b ∷ bs) h = ground (arith, codes_leb_total as' bs)

pub codes_leb_trans :
    (as' bs cs : List ℕ)
    → codes_leb as' bs ≡ true
    → codes_leb bs cs ≡ true
    → codes_leb as' cs ≡ true
codes_leb_trans [] bs cs h k = refl
codes_leb_trans (a ∷ as') [] cs h k = absurd (cc)
codes_leb_trans (a ∷ as') (b ∷ bs) [] h k = absurd (cc)
codes_leb_trans (a ∷ as') (b ∷ bs) (c ∷ cs) h k = ground (arith, codes_leb_trans as' bs cs)

pub codes_leb_refl : (as' : List ℕ) → codes_leb as' as' ≡ true
codes_leb_refl [] = refl
codes_leb_refl (a ∷ as') = ground (arith, codes_leb_refl as')

pub text_leb_refl : (a : String) → text_leb a a ≡ true
unfolding text_leb
text_leb_refl a = codes_leb_refl (codes a)

pub text_leb_total : (a b : String) → text_leb a b ≡ false → text_leb b a ≡ true
unfolding text_leb
text_leb_total a b h = codes_leb_total (codes a) (codes b) h

pub text_leb_trans :
    (a b c : String) → text_leb a b ≡ true → text_leb b c ≡ true → text_leb a c ≡ true
unfolding text_leb
text_leb_trans a b c h k = codes_leb_trans (codes a) (codes b) (codes c) h k

-- `a LIKE 'prefix%'` in SQLite: without regard to the case of ASCII letters. The prefix holds no
-- wildcard.
abbrev pub lower : ℕ → ℕ
lower c = if leb 65 c && leb c 90 then c + 32 else c

abbrev pub like_prefix : List ℕ → List ℕ → Bool
like_prefix [] cs = true
like_prefix (p ∷ ps) [] = false
like_prefix (p ∷ ps) (c ∷ cs) = lower p == lower c && like_prefix ps cs

-- A text that the code takes apart: the list of its characters' codes.
abbrev pub Text : Type 0
Text = List ℕ

abbrev pub text_eq : Text → Text → Bool
text_eq [] [] = true
text_eq [] (b ∷ bs) = false
text_eq (a ∷ as') [] = false
text_eq (a ∷ as') (b ∷ bs) = a == b && text_eq as' bs

text_eq_sound : (a b : Text) → text_eq a b ≡ true → a ≡ b
text_eq_sound [] [] h = refl
text_eq_sound [] (b ∷ bs) h = absurd (cc)
text_eq_sound (a ∷ as') [] h = absurd (cc)
text_eq_sound (a ∷ as') (b ∷ bs) h =
    let heads : a ≡ b = ground arith in let tails = text_eq_sound as' bs (ground arith) in cc

pub text_eq_refl : (a : Text) → text_eq a a ≡ true
text_eq_refl [] = refl
text_eq_refl (a ∷ as') = ground (arith, text_eq_refl as')

pub text_eq_iff : (a b : Text) → (text_eq a b ≡ true) ↔ (a ≡ b)
text_eq_iff a b = (text_eq_sound a b, λ e. rw e (text_eq_refl b))

pub codes_leb_antisymm : (a b : Text) → codes_leb a b ≡ true → codes_leb b a ≡ true → a ≡ b
codes_leb_antisymm [] [] h k = refl
codes_leb_antisymm [] (b ∷ bs) h k = absurd (cc)
codes_leb_antisymm (a ∷ as') [] h k = absurd (cc)
codes_leb_antisymm (a ∷ as') (b ∷ bs) h k =
    let heads : a ≡ b = ground arith in
    let tails = codes_leb_antisymm as' bs (ground arith) (ground arith) in cc
