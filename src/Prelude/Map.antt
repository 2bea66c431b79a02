-- ===== src/Prelude/Map.antt =====
-- `BTreeMap` with text keys: the entries in strictly ascending order of their keys.
pub mod Collect
use Prim.Native.Nat.{Ordering}
use mathlib.Core.Path.{◌≡◌, refl, ap, sym, subst}
use mathlib.Core.Logic.{inl, inr}
use mathlib.Core.Bool.{Bool, true, false}
use mathlib.Core.Option.{Option, none, some}
use mathlib.Core.List.{List, [], ◌∷◌, map}
use native.Mathlib.Omega.{arith}
use census.Prelude.Tests.{if◌then◌else◌, Bool-cases}
use census.Prelude.Lists.{In, All, All-In}
use census.Prelude.Strings.{
  Text, str_eq, str_eq_iff, cmp_text, cmp_text-eq, cmp_text_refl, cmp_text-flip, cmp_text_trans,
}

abbrev pub Map : Type 0 → Type 0
Map V = List (Text × V)

abbrev pub Below : Text → Text → Type 0
Below k j = cmp_text k j ≡ Ordering.lt

pub Below-trans : (a b c : Text) → Below a b → Below b c → Below a c
Below-trans = cmp_text_trans

Below-ne : (k j : Text) → Below k j → str_eq k j ≡ false
Below-ne k j h = ground (arith, str_eq_iff k j, cmp_text_refl k)

Below-ne_flip : (k j : Text) → Below k j → str_eq j k ≡ false
Below-ne_flip k j h = ground (arith, str_eq_iff j k, cmp_text_refl k)

module _ {V : Type 0} where
  -- Keys strictly ascend, as a B-tree keeps them.
  abbrev pub IsMap : Map V → Type 0
  IsMap [] = Unit
  IsMap ((k, v) ∷ m) = All (λ e. Below k e.0) m × IsMap m

  unfoldable pub get : Text → Map V → Option V
  get k [] = none
  get k ((j, v) ∷ m) = if str_eq j k then some v else get k m

  unfoldable pub contains_key : Text → Map V → Bool
  contains_key k [] = false
  contains_key k ((j, v) ∷ m) = if str_eq j k then true else contains_key k m

  abbrev pub place : Ordering → Text → V → Text → V → Map V → Map V → Map V
  place Ordering.lt k v j w m rest = (k, v) ∷ (j, w) ∷ m
  place Ordering.eq k v j w m rest = (k, v) ∷ m
  place Ordering.gt k v j w m rest = (j, w) ∷ rest

  unfoldable pub insert : Text → V → Map V → Map V
  insert k v [] = (k, v) ∷ []
  insert k v ((j, w) ∷ m) = place (cmp_text k j) k v j w m (insert k v m)

  -- `collect()` from pairs: a later pair with the same key replaces an earlier one.
  unfoldable pub collect : List (Text × V) → Map V → Map V
  collect [] m = m
  collect ((k, v) ∷ l) m = collect l (insert k v m)

  abbrev pub keys : Map V → List Text
  keys m = map (λ e. e.0) m

  pub get-insert :
      (k j : Text) (v : V) (m : Map V)
      → get j (insert k v m) ≡ (if str_eq k j then some v else get j m)
  unfolding get insert
  get-insert k j v [] = refl
  get-insert k j v ((i, w) ∷ m) =
      ground (
        arith,
        get-insert k j v m,
        str_eq_iff k j,
        str_eq_iff i j,
        cmp_text-eq k i,
        cmp_text_refl k,
      )

  pub contains_key-get :
      (k : Text) (m : Map V) → contains_key k m ≡ true → (v : V) × (get k m ≡ some v)
  unfolding get contains_key
  contains_key-get k [] h = cc
  contains_key-get k ((j, v) ∷ m) h = elim (Bool-cases (str_eq j k)) [
    | inl e ↦ (v, rw e)
    | inr e ↦ rw e (contains_key-get k m (rw e at h))
  ]

  pub contains_key-none : (k : Text) (m : Map V) → contains_key k m ≡ false → get k m ≡ none
  unfolding get contains_key
  contains_key-none k [] h = refl
  contains_key-none k ((j, v) ∷ m) h = ground (arith, contains_key-none k m)

  pub In-of_get : (k : Text) (v : V) (m : Map V) → get k m ≡ some v → In (k, v) m
  unfolding get
  In-of_get k v [] h = cc
  In-of_get k v ((j, w) ∷ m) h = elim (Bool-cases (str_eq j k)) [
    | inl e ↦ inl (cc ((str_eq_iff j k).0 e, h, ap (λ b. if b then some w else get k m) e))
    | inr e ↦ inr (In-of_get k v m (rw e at h))
  ]

  -- In a map the entries are exactly what `get` returns.
  pub get_of_In : (k : Text) (v : V) (m : Map V) → IsMap m → In (k, v) m → get k m ≡ some v
  unfolding get
  get_of_In k v [] h m = absurd m
  get_of_In k v ((j, w) ∷ m) h (inl e) =
      ground (arith, str_eq_iff j k, ap (λ (p : Text × V). p.0) e, ap (λ (p : Text × V). p.1) e)
  get_of_In k v ((j, w) ∷ m) h (inr i) =
      rw (Below-ne j k (All-In _ m h.0 (k, v) i)) (get_of_In k v m h.1 i)

  pub above-absent : (k : Text) (m : Map V) → All (λ e. Below k e.0) m → contains_key k m ≡ false
  unfolding contains_key
  above-absent k [] a = refl
  above-absent k ((j, w) ∷ m) a = rw (Below-ne_flip k j a.0) (above-absent k m a.1)

  All-Below-trans :
      (k j : Text) (m : Map V) → Below k j → All (λ e. Below j e.0) m → All (λ e. Below k e.0) m
  All-Below-trans k j [] h a = tt
  All-Below-trans k j ((i, w) ∷ m) h a = (Below-trans k j i h a.0, All-Below-trans k j m h a.1)

  All-place :
      (P : Text × V → Type 0) (o : Ordering) (k : Text) (v : V) (j : Text) (w : V) (m rest : Map V)
      → P (k, v)
      → All P ((j, w) ∷ m)
      → All P rest
      → All P (place o k v j w m rest)
  All-place P Ordering.lt k v j w m rest h a r = (h, a)
  All-place P Ordering.eq k v j w m rest h a r = (h, a.1)
  All-place P Ordering.gt k v j w m rest h a r = (a.0, r)

  place-IsMap :
      (o : Ordering) (k : Text) (v : V) (j : Text) (w : V) (m rest : Map V)
      → cmp_text k j ≡ o
      → IsMap ((j, w) ∷ m)
      → IsMap rest
      → (Below j k → All (λ e. Below j e.0) rest)
      → IsMap (place o k v j w m rest)
  place-IsMap Ordering.lt k v j w m rest e h r b = ((e, All-Below-trans k j m e h.0), h)
  place-IsMap Ordering.eq k v j w m rest e h r b =
      (subst (λ i. All (λ x. Below i x.0) m) (sym (cmp_text-eq k j e)) h.0, h.1)
  place-IsMap Ordering.gt k v j w m rest e h r b = (b (cc (cmp_text-flip k j)), r)

  All-insert :
      (P : Text × V → Type 0) (k : Text) (v : V) (m : Map V)
      → P (k, v)
      → All P m
      → All P (insert k v m)
  unfolding insert
  All-insert P k v [] h a = (h, tt)
  All-insert P k v ((j, w) ∷ m) h a =
      All-place P (cmp_text k j) k v j w m (insert k v m) h a (All-insert P k v m h a.1)

  pub insert-IsMap : (k : Text) (v : V) (m : Map V) → IsMap m → IsMap (insert k v m)
  unfolding insert
  insert-IsMap k v [] h = (tt, tt)
  insert-IsMap k v ((j, w) ∷ m) h =
      place-IsMap (cmp_text k j) k v j w m (insert k v m) refl h (insert-IsMap k v m h.1)
        (λ a. All-insert _ k v m a h.0)
