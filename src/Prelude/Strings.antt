-- ===== src/Prelude/Strings.antt =====
-- Text as the list of its code points (the bytes, where it is ASCII): `str` and `String`.
use Prim.Native.Nat.{ℕ, Ordering}
use Prim.Native.Char.{code}
use Prim.Native.String.{String}
use mathlib.Core.Path.{◌≡◌}
use mathlib.Core.Logic.{◌↔◌}
use mathlib.Core.Bool.{Bool, true}
use mathlib.Core.Option.{Option, none, some}
use mathlib.Core.List.{List, [], ◌∷◌, ◌++◌}
use native.Mathlib.Omega.{arith}
use census.Prelude.Tests.{◌==◌, if◌then◌else◌}
use census.Prelude.Order.{flip, eq_ord, eq_ord_iff}
use census.Prelude.Derived.{nat_ord, list_ord}

abbrev pub Text : Type 0
Text = List ℕ

-- A text literal.
abbrev pub codes : String → Text
codes String.[] = []
codes (String.◌∷◌ c s) = code c ∷ codes s

-- `==` on texts.
unfoldable pub str_eq : Text → Text → Bool
str_eq s t = eq_ord s t

pub str_eq_iff : (s t : Text) → (str_eq s t ≡ true) ↔ (s ≡ t)
unfolding str_eq
str_eq_iff s t = eq_ord_iff s t

-- `cmp` on texts. UTF-8 keeps the order of code points.
unfoldable pub cmp_text : Text → Text → Ordering
cmp_text = list_ord.cmp

pub cmp_text-eq : (s t : Text) → cmp_text s t ≡ Ordering.eq → s ≡ t
unfolding cmp_text
cmp_text-eq = list_ord.cmp_eq

pub cmp_text_refl : (s : Text) → cmp_text s s ≡ Ordering.eq
unfolding cmp_text
cmp_text_refl = list_ord.cmp_refl

pub cmp_text-flip : (s t : Text) → cmp_text t s ≡ flip (cmp_text s t)
unfolding cmp_text
cmp_text-flip = list_ord.cmp_flip

pub cmp_text_trans :
    (s t u : Text)
    → cmp_text s t ≡ Ordering.lt
    → cmp_text t u ≡ Ordering.lt
    → cmp_text s u ≡ Ordering.lt
unfolding cmp_text
cmp_text_trans = list_ord.cmp_trans

-- `strip_prefix`
abbrev pub strip_prefix : Text → Text → Option Text
strip_prefix [] s = some s
strip_prefix (p ∷ ps) [] = none
strip_prefix (p ∷ ps) (c ∷ s) = if p == c then strip_prefix ps s else none

pub strip_prefix_iff : (p s r : Text) → (strip_prefix p s ≡ some r) ↔ (s ≡ p ++ r)
strip_prefix_iff [] s r = (λ h. cc, λ h. cc)
strip_prefix_iff (p ∷ ps) [] r = (λ h. cc, λ h. cc)
strip_prefix_iff (p ∷ ps) (c ∷ s) r = (
  λ h. ground (arith, (strip_prefix_iff ps s r).0),
  λ h. ground (arith, (strip_prefix_iff ps s r).1),
)
