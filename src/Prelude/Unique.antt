-- ===== src/Prelude/Unique.antt =====
-- Lists without repetition, as a set of what was seen so far tests it.
use mathlib.Core.Path.{◌≡◌, refl, sym, subst}
use mathlib.Core.Logic.{◌↔◌, inl, inr}
use mathlib.Core.List.{List, [], ◌∷◌, ◌++◌, append-nil, append_assoc}
use census.Prelude.Lists.{In, In-append, In-append_left, In-append_right}

module _ {A : Type 0} where
  -- Nothing twice.
  abbrev pub Distinct : List A → Type 0
  Distinct [] = Unit
  Distinct (k ∷ ks) = ¬ In k ks × Distinct ks

  -- Each element is new when its turn comes, and is seen from then on.
  abbrev pub Fresh : List A → List A → Type 0
  Fresh seen [] = Unit
  Fresh seen (k ∷ ks) = ¬ In k seen × Fresh (seen ++ (k ∷ [])) ks

  -- Nothing of the list was seen before.
  abbrev pub Unseen : List A → List A → Type 0
  Unseen seen l = (k : A) → In k l → ¬ In k seen

  Fresh-Unseen : (seen l : List A) → Fresh seen l → Unseen seen l × Distinct l
  Fresh-Unseen seen [] f = (λ k i. absurd i, tt)
  Fresh-Unseen seen (k ∷ ks) f =
      let r = Fresh-Unseen (seen ++ (k ∷ [])) ks f.1 in
      (
        λ j i. elim i [
          | inl e ↦ subst (λ x. ¬ In x seen) (sym e) f.0
          | inr m ↦ λ s. r.0 j m (In-append_left j seen (k ∷ []) s)
        ],
        (λ m. r.0 k m (In-append_right k seen (k ∷ []) (inl refl)), r.1),
      )

  Unseen-Fresh : (seen l : List A) → Unseen seen l → Distinct l → Fresh seen l
  Unseen-Fresh seen [] u d = tt
  Unseen-Fresh seen (k ∷ ks) u d = (
    u k (inl refl),
    Unseen-Fresh (seen ++ (k ∷ [])) ks
        (λ j i s. elim (In-append j seen (k ∷ []) s) [
          | inl a ↦ u j (inr i) a
          | inr b ↦ elim b [ inl e ↦ d.0 (subst (λ x. In x ks) e i) | inr z ↦ z ]
        ])
        d.1,
  )

  -- From nothing seen, being new each time is having no repetition.
  pub Fresh-Distinct_iff : (l : List A) → Fresh [] l ↔ Distinct l
  Fresh-Distinct_iff l = (λ f. (Fresh-Unseen [] l f).1, λ d. Unseen-Fresh [] l (λ k i s. s) d)

  pub Fresh-append_iff :
      (seen l m : List A) → Fresh seen (l ++ m) ↔ (Fresh seen l × Fresh (seen ++ l) m)
  Fresh-append_iff seen [] m =
      let e = append-nil seen in
      (λ f. (tt, subst (λ s. Fresh s m) (sym e) f), λ p. subst (λ s. Fresh s m) e p.1)
  Fresh-append_iff seen (k ∷ l) m =
      let r = Fresh-append_iff (seen ++ (k ∷ [])) l m in
      let e : (seen ++ (k ∷ [])) ++ l ≡ seen ++ (k ∷ l) = append_assoc seen (k ∷ []) l in
      (
        λ f. let q = r.0 f.1 in ((f.0, q.0), subst (λ s. Fresh s m) e q.1),
        λ p. (p.0.0, r.1 (p.0.1, subst (λ s. Fresh s m) (sym e) p.1)),
      )
