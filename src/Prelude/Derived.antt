-- ===== src/Prelude/Derived.antt =====
-- The instances of `Ord`: numbers, and those derived for booleans, options, lists and pairs.
use Prim.Native.Nat.{ℕ, compare, Ordering}
use mathlib.Core.Path.{◌≡◌, refl, ap}
use mathlib.Core.Bool.{Bool, true, false}
use mathlib.Core.Option.{Option, none, some}
use mathlib.Core.List.{List, [], ◌∷◌}
use native.Mathlib.Omega.{arith}
use census.Prelude.Order.{Ord, flip, then_with, List_set}

-- `Ord` of the numbers, and the derived instances: lexicographic on the fields of a pair and on
-- the elements of a list; `None` below `Some`, `false` below `true`.
pub nat_eq : (a b : ℕ) → compare a b ≡ Ordering.eq → a ≡ b
nat_eq a b h = ground arith

pub nat_refl : (a : ℕ) → compare a a ≡ Ordering.eq
nat_refl a = ground arith

pub nat_flip : (a b : ℕ) → compare b a ≡ flip (compare a b)
nat_flip a b = ground arith

pub nat_trans :
    (a b c : ℕ) → compare a b ≡ Ordering.lt → compare b c ≡ Ordering.lt → compare a c ≡ Ordering.lt
nat_trans a b c h k = ground arith

pub nat_set : IsSet ℕ
nat_set = hlevel

instance abbrev pub nat_ord : Ord ℕ
nat_ord = record {
  cmp = compare;
  cmp_eq = nat_eq;
  cmp_refl = nat_refl;
  cmp_flip = nat_flip;
  cmp_trans = nat_trans;
  is_set = nat_set;
}

abbrev cmp_Bool : Bool → Bool → Ordering
cmp_Bool false false = Ordering.eq
cmp_Bool false true = Ordering.lt
cmp_Bool true false = Ordering.gt
cmp_Bool true true = Ordering.eq

pub Bool_eq : (a b : Bool) → cmp_Bool a b ≡ Ordering.eq → a ≡ b
Bool_eq a b h = ground arith

pub Bool_refl : (a : Bool) → cmp_Bool a a ≡ Ordering.eq
Bool_refl a = ground arith

pub Bool_flip : (a b : Bool) → cmp_Bool b a ≡ flip (cmp_Bool a b)
Bool_flip a b = ground arith

pub Bool_trans :
    (a b c : Bool)
    → cmp_Bool a b ≡ Ordering.lt
    → cmp_Bool b c ≡ Ordering.lt
    → cmp_Bool a c ≡ Ordering.lt
Bool_trans a b c h k = ground arith

pub Bool_set : IsSet Bool
Bool_set = hlevel

instance abbrev pub bool_ord : Ord Bool
bool_ord = record {
  cmp = cmp_Bool;
  cmp_eq = Bool_eq;
  cmp_refl = Bool_refl;
  cmp_flip = Bool_flip;
  cmp_trans = Bool_trans;
  is_set = Bool_set;
}

module _ {A : Type 0} ⦃o : Ord A⦄ where
  abbrev cmp_Option : Option A → Option A → Ordering
  cmp_Option none none = Ordering.eq
  cmp_Option none (some b) = Ordering.lt
  cmp_Option (some a) none = Ordering.gt
  cmp_Option (some a) (some b) = o.cmp a b

  pub Option_eq : (a b : Option A) → cmp_Option a b ≡ Ordering.eq → a ≡ b
  Option_eq none none h = refl
  Option_eq none (some b) h = cc
  Option_eq (some a) none h = cc
  Option_eq (some a) (some b) h = ap some (o.cmp_eq a b h)

  pub Option_refl : (a : Option A) → cmp_Option a a ≡ Ordering.eq
  Option_refl none = refl
  Option_refl (some a) = o.cmp_refl a

  pub Option_flip : (a b : Option A) → cmp_Option b a ≡ flip (cmp_Option a b)
  Option_flip none none = refl
  Option_flip none (some b) = refl
  Option_flip (some a) none = refl
  Option_flip (some a) (some b) = o.cmp_flip a b

  pub Option_trans :
      (a b c : Option A)
      → cmp_Option a b ≡ Ordering.lt
      → cmp_Option b c ≡ Ordering.lt
      → cmp_Option a c ≡ Ordering.lt
  Option_trans none none c h k = cc
  Option_trans none (some b) none h k = cc
  Option_trans none (some b) (some c) h k = refl
  Option_trans (some a) none c h k = cc
  Option_trans (some a) (some b) none h k = cc
  Option_trans (some a) (some b) (some c) h k = o.cmp_trans a b c h k

  pub Option_set : IsSet (Option A)
  Option_set = hlevel o.is_set

  instance abbrev pub option_ord : Ord (Option A)
  option_ord = record {
    cmp = cmp_Option;
    cmp_eq = Option_eq;
    cmp_refl = Option_refl;
    cmp_flip = Option_flip;
    cmp_trans = Option_trans;
    is_set = Option_set;
  }

  abbrev cmp_List : List A → List A → Ordering
  cmp_List [] [] = Ordering.eq
  cmp_List [] (b ∷ m) = Ordering.lt
  cmp_List (a ∷ l) [] = Ordering.gt
  cmp_List (a ∷ l) (b ∷ m) = then_with (o.cmp a b) (cmp_List l m)

  pub List_eq : (a b : List A) → cmp_List a b ≡ Ordering.eq → a ≡ b
  List_eq [] [] h = refl
  List_eq [] (b ∷ m) h = cc
  List_eq (a ∷ l) [] h = cc
  List_eq (a ∷ l) (b ∷ m) h = ground (arith, o.cmp_eq a b, List_eq l m)

  pub List_refl : (a : List A) → cmp_List a a ≡ Ordering.eq
  List_refl [] = refl
  List_refl (a ∷ l) = ground (arith, o.cmp_refl a, List_refl l)

  pub List_flip : (a b : List A) → cmp_List b a ≡ flip (cmp_List a b)
  List_flip [] [] = refl
  List_flip [] (b ∷ m) = refl
  List_flip (a ∷ l) [] = refl
  List_flip (a ∷ l) (b ∷ m) = ground (arith, o.cmp_flip a b, List_flip l m)

  pub List_trans :
      (a b c : List A)
      → cmp_List a b ≡ Ordering.lt
      → cmp_List b c ≡ Ordering.lt
      → cmp_List a c ≡ Ordering.lt
  List_trans [] [] c h k = cc
  List_trans [] (b ∷ m) [] h k = cc
  List_trans [] (b ∷ m) (c ∷ n) h k = refl
  List_trans (a ∷ l) [] c h k = cc
  List_trans (a ∷ l) (b ∷ m) [] h k = cc
  List_trans (a ∷ l) (b ∷ m) (c ∷ n) h k =
      ground (arith, o.cmp_eq a b, o.cmp_eq b c, o.cmp_refl a, o.cmp_trans a b c, List_trans l m n)

  instance abbrev pub list_ord : Ord (List A)
  list_ord = record {
    cmp = cmp_List;
    cmp_eq = List_eq;
    cmp_refl = List_refl;
    cmp_flip = List_flip;
    cmp_trans = List_trans;
    is_set = List_set o.is_set;
  }

module _ {A B : Type 0} ⦃o : Ord A⦄ ⦃q : Ord B⦄ where
  abbrev cmp_pair : A × B → A × B → Ordering
  cmp_pair (a, b) (c, d) = then_with (o.cmp a c) (q.cmp b d)

  pub pair_eq : (x y : A × B) → cmp_pair x y ≡ Ordering.eq → x ≡ y
  pair_eq (a, b) (c, d) h = ground (arith, o.cmp_eq a c, q.cmp_eq b d)

  pub pair_refl : (x : A × B) → cmp_pair x x ≡ Ordering.eq
  pair_refl (a, b) = ground (arith, o.cmp_refl a, q.cmp_refl b)

  pub pair_flip : (x y : A × B) → cmp_pair y x ≡ flip (cmp_pair x y)
  pair_flip (a, b) (c, d) = ground (arith, o.cmp_flip a c, q.cmp_flip b d)

  pub pair_trans :
      (x y z : A × B)
      → cmp_pair x y ≡ Ordering.lt
      → cmp_pair y z ≡ Ordering.lt
      → cmp_pair x z ≡ Ordering.lt
  pair_trans (a, b) (c, d) (e, f) h k =
      ground (arith, o.cmp_eq a c, o.cmp_eq c e, o.cmp_refl a, o.cmp_trans a c e, q.cmp_trans b d f)

  pub pair_set : IsSet (A × B)
  pair_set = hlevel (o.is_set, q.is_set)

  instance abbrev pub pair_ord : Ord (A × B)
  pair_ord = record {
    cmp = cmp_pair;
    cmp_eq = pair_eq;
    cmp_refl = pair_refl;
    cmp_flip = pair_flip;
    cmp_trans = pair_trans;
    is_set = pair_set;
  }
