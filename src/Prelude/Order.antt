-- ===== src/Prelude/Order.antt =====
-- `Ord` of the source's standard library, and sorting by it.
use Prim.Native.Nat.{Ordering}
use mathlib.Core.Path.{◌≡◌, refl, sym, subst, ◌∙◌}
use mathlib.Core.Logic.{◌↔◌, inl, inr, ∥∥₁_elim}
use mathlib.Core.Bool.{Bool, true, false}
use mathlib.Core.List.{List, [], ◌∷◌, Perm, Permᴰ}
use mathlib.Core.List.Perm
use native.Mathlib.Omega.{arith}
use census.Prelude.Tests.{if◌then◌else◌, Bool-cases}

abbrev pub flip : Ordering → Ordering
flip Ordering.lt = Ordering.gt
flip Ordering.eq = Ordering.eq
flip Ordering.gt = Ordering.lt

-- The first comparison decides, unless it finds the two equal.
abbrev pub then_with : Ordering → Ordering → Ordering
then_with Ordering.lt p = Ordering.lt
then_with Ordering.eq p = p
then_with Ordering.gt p = Ordering.gt

pub record Ord {ℓ} (A : Type ℓ) : Type ℓ where
  pub cmp : A → A → Ordering
  pub cmp_eq : (a b : A) → cmp a b ≡ Ordering.eq → a ≡ b
  pub cmp_refl : (a : A) → cmp a a ≡ Ordering.eq
  pub cmp_flip : (a b : A) → cmp b a ≡ flip (cmp a b)
  pub cmp_trans :
      (a b c : A) → cmp a b ≡ Ordering.lt → cmp b c ≡ Ordering.lt → cmp a c ≡ Ordering.lt
  pub is_set : IsSet A

pub List_set {ℓ} : {A : Type ℓ} → IsSet A → IsSet (List A)
List_set s = hlevel s

module _ {ℓ} {A : Type ℓ} ⦃o : Ord A⦄ where
  -- `a <= b`
  abbrev pub le_ord : A → A → Bool
  le_ord a b = elim (o.cmp a b) [ Ordering.gt ↦ false | _ ↦ true ]

  -- `a == b`
  abbrev pub eq_ord : A → A → Bool
  eq_ord a b = elim (o.cmp a b) [ Ordering.eq ↦ true | _ ↦ false ]

  insert : A → List A → List A
  insert a [] = a ∷ []
  insert a (b ∷ l) = if le_ord a b then a ∷ b ∷ l else b ∷ insert a l

  insert-perm : (a : A) (l : List A) → Perm (insert a l) (a ∷ l)
  unfolding insert
  insert-perm a [] = Perm.refl (a ∷ [])
  insert-perm a (b ∷ l) = elim (Bool-cases (le_ord a b)) [
    | inl e ↦ rw e (Perm.refl (a ∷ b ∷ l))
    | inr e ↦ rw e (Perm.trans (Perm.cons b (insert-perm a l)) (Perm.swap a b l))
  ]

  -- `sort_unstable`: equal elements are the same, so every sort returns this list.
  unfoldable pub sort : List A → List A
  unfolding insert
  sort [] = []
  sort (a ∷ l) = insert a (sort l)

  -- Both slices sorted and compared.
  abbrev pub eq_list : List A → List A → Bool
  eq_list [] [] = true
  eq_list (a ∷ l) (b ∷ m) = if eq_ord a b then eq_list l m else false
  eq_list _ _ = false

  le_total : (a b : A) → le_ord a b ≡ false → le_ord b a ≡ true
  le_total a b h = ground (arith, o.cmp_flip a b)

  le_antisym : (a b : A) → le_ord a b ≡ true → le_ord b a ≡ true → a ≡ b
  le_antisym a b h k = ground (arith, o.cmp_flip a b, o.cmp_eq a b)

  le_trans : (a b c : A) → le_ord a b ≡ true → le_ord b c ≡ true → le_ord a c ≡ true
  le_trans a b c h k = ground (arith, o.cmp_eq a b, o.cmp_eq b c, o.cmp_trans a b c, o.cmp_refl c)

  pub eq_ord_iff : (a b : A) → (eq_ord a b ≡ true) ↔ (a ≡ b)
  eq_ord_iff a b = (λ h. o.cmp_eq a b (ground arith), λ e. ground (arith, o.cmp_refl b))

  insert_comm : (a b : A) (l : List A) → insert a (insert b l) ≡ insert b (insert a l)
  unfolding insert
  insert_comm a b [] = ground (arith, le_total a b, le_total b a, le_antisym a b)
  insert_comm a b (y ∷ l) = ground (
    arith,
    insert_comm a b l,
    le_total a b,
    le_total b a,
    le_antisym a b,
    le_trans a b y,
    le_trans b a y,
  )

  pub sort-perm : (l : List A) → Perm (sort l) l
  unfolding sort
  sort-perm [] = Perm.refl []
  sort-perm (a ∷ l) = Perm.trans (insert-perm a (sort l)) (Perm.cons a (sort-perm l))

  sort_of_Permᴰ : {l m : List A} → Permᴰ l m → sort l ≡ sort m
  unfolding sort
  sort_of_Permᴰ Permᴰ.nil = refl
  sort_of_Permᴰ (Permᴰ.cons e p) = cc (e, sort_of_Permᴰ p)
  sort_of_Permᴰ (Permᴰ.swap {a} {b} {a'} {b'} {l} e f) = cc (e, f, insert_comm a b (sort l))
  sort_of_Permᴰ (Permᴰ.trans p q) = sort_of_Permᴰ p ∙ sort_of_Permᴰ q

  -- Two lists sort to the same list exactly when each holds every element as often.
  pub sort-eq_iff_perm : (l m : List A) → (sort l ≡ sort m) ↔ Perm l m
  sort-eq_iff_perm l m = (
    λ e. Perm.trans (Perm.symm (sort-perm l)) (subst (λ k. Perm k m) (sym e) (sort-perm m)),
    λ p. ∥∥₁_elim p (List_set o.is_set (sort l) (sort m)) sort_of_Permᴰ,
  )

  pub eq_list_iff : (l m : List A) → (eq_list l m ≡ true) ↔ (l ≡ m)
  eq_list_iff [] [] = (λ _. refl, λ _. refl)
  eq_list_iff [] (b ∷ m) = (λ h. cc, λ h. cc)
  eq_list_iff (a ∷ l) [] = (λ h. cc, λ h. cc)
  eq_list_iff (a ∷ l) (b ∷ m) = (
    λ h. ground (arith, (eq_ord_iff a b).0, (eq_list_iff l m).0),
    λ e. ground (arith, (eq_ord_iff a b).1, (eq_list_iff l m).1),
  )
