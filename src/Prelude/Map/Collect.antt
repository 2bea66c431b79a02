-- ===== src/Prelude/Map/Collect.antt =====
-- Maps built from lists of pairs.
use mathlib.Core.Path.{◌≡◌, refl, ap, ◌∙◌, sym}
use mathlib.Core.Logic.{◌⊎◌, inl, inr}
use mathlib.Core.List.{List, [], ◌∷◌}
use mathlib.Core.Option.{some}
use Prim.Native.Nat.{Ordering}
use native.Mathlib.Omega.{arith}
use census.Prelude.Lists.{In}
use census.Prelude.Unique.{Distinct}
use census.Prelude.Strings.{Text, str_eq_iff, cmp_text}
use census.Prelude.Map.{Map, IsMap, keys, get, place, insert, collect, get-insert, insert-IsMap}

module _ {V : Type 0} where
  In-place :
      (e : Text × V) (o : Ordering) (k : Text) (v : V) (j : Text) (w : V) (m rest : Map V)
      → In e (place o k v j w m rest)
      → (In e rest → (e ≡ (k, v)) ⊎ In e m)
      → (e ≡ (k, v)) ⊎ In e ((j, w) ∷ m)
  In-place e Ordering.lt k v j w m rest (inl q) f = inl q
  In-place e Ordering.lt k v j w m rest (inr i) f = inr i
  In-place e Ordering.eq k v j w m rest (inl q) f = inl q
  In-place e Ordering.eq k v j w m rest (inr i) f = inr (inr i)
  In-place e Ordering.gt k v j w m rest (inl q) f = inr (inl q)
  In-place e Ordering.gt k v j w m rest (inr i) f = elim (f i) [
    | inl q ↦ inl q
    | inr k ↦ inr (inr k)
  ]

  pub In-insert :
      (e : Text × V) (k : Text) (v : V) (m : Map V) → In e (insert k v m) → (e ≡ (k, v)) ⊎ In e m
  unfolding insert
  In-insert e k v [] (inl q) = inl q
  In-insert e k v [] (inr i) = absurd i
  In-insert e k v ((j, w) ∷ m) i =
      In-place e (cmp_text k j) k v j w m (insert k v m) i (λ h. In-insert e k v m h)

  pub In-collect :
      (e : Text × V) (l : List (Text × V)) (m : Map V) → In e (collect l m) → In e l ⊎ In e m
  unfolding collect
  In-collect e [] m i = inr i
  In-collect e ((k, v) ∷ l) m i = elim (In-collect e l (insert k v m) i) [
    | inl a ↦ inl (inr a)
    | inr b ↦ elim (In-insert e k v m b) [ inl q ↦ inl (inl q) | inr c ↦ inr c ]
  ]

  get-collect_other :
      (k : Text) (l : List (Text × V)) (m : Map V) → ¬ In k (keys l) → get k (collect l m) ≡ get k m
  unfolding collect
  get-collect_other k [] m h = refl
  get-collect_other k ((j, v) ∷ l) m h =
      get-collect_other k l (insert j v m) (λ i. h (inr i))
      ∙ (get-insert j k v m ∙ ground (arith, str_eq_iff j k, λ (e : j ≡ k). h (inl (sym e))))

  pub get-collect :
      (k : Text) (v : V) (l : List (Text × V)) (m : Map V)
      → Distinct (keys l)
      → In (k, v) l
      → get k (collect l m) ≡ some v
  unfolding collect
  get-collect k v [] m d i = absurd i
  get-collect k v ((j, w) ∷ l) m d (inl q) =
      let a : k ≡ j = ap (λ (x : Text × V). x.0) q in
      let b : v ≡ w = ap (λ (x : Text × V). x.1) q in
      rw a (
        get-collect_other j l (insert j w m) d.0
        ∙ (get-insert j j w m ∙ ground (arith, str_eq_iff j j, b)))
  get-collect k v ((j, w) ∷ l) m d (inr i) = get-collect k v l (insert j w m) d.1 i

  pub collect-IsMap : (l : List (Text × V)) (m : Map V) → IsMap m → IsMap (collect l m)
  unfolding collect
  collect-IsMap [] m h = h
  collect-IsMap ((k, v) ∷ l) m h = collect-IsMap l (insert k v m) (insert-IsMap k v m h)
