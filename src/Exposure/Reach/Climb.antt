-- ===== src/Exposure/Reach/Climb.antt =====
-- The memoized climb `reachable_dir` of src/exposure/reach.rs.
use census.Prelude.Map
use census.Exposure.Reach.{
  recall, has_search, conclude, within_scope, reachable_dir, Cache, parent_of, parent_dir,
  PermissionIndex, before_last,
}
use census.Prelude.{
  subst, zero, Bool-cases, ◌&&◌, ◌↔◌, ℕ, false, str_eq_iff, inr, Bool, true, sym, arith, List,
  str_eq, inl, ◌⊎◌, refl, none, suc, [], ◌==◌, if◌then◌else◌, Option, ◌∷◌, ◌<◌, length, some, ◌≡◌,
  Text,
}
use census.Exposure.Access.{Principal}

before_last-shorter : (s p : Text) → before_last s ≡ some p → length p < length s
unfolding before_last
before_last-shorter [] p h = cc
before_last-shorter (c ∷ s) p h = go (before_last s) refl (λ q e. before_last-shorter s q e) h
  where
    go :
        (o : Option Text)
        → before_last s ≡ o
        → ((q : Text) → before_last s ≡ some q → length q < length s)
        → (◌≡◌ {A = Option Text}
            (elim o as (λ x. Option Text) [
              | some q ↦ some (c ∷ q)
              | none ↦ if c == b'/' then some [] else none
            ])
            (some p))
        → length p < suc (length s)
    go (some q) e f k = let r = f q e in ground (arith, r, k)
    go none e f k = ground (arith, k)

before_last-nil : (s : Text) → before_last s ≡ some [] → (s ≡ b'/' ∷ []) ⊎ (1 < length s)
unfolding before_last
before_last-nil [] h = cc
before_last-nil (c ∷ []) h = inl (ground (arith, h))
before_last-nil (c ∷ d ∷ s) h = inr (omega arith)

parent_of-shorter :
    (path : Text) (o : Option Text)
    → before_last path ≡ o
    → (parent_of path o ≡ path) ⊎ (length (parent_of path o) < length path)
parent_of-shorter path none e = inl refl
parent_of-shorter path (some []) e = elim (before_last-nil path e) [
  | inl q ↦ inl (sym q)
  | inr l ↦ inr l
]
parent_of-shorter path (some (c ∷ p)) e = inr (before_last-shorter path (c ∷ p) e)

-- The parent of a path is shorter, unless the climb has come to its top.
pub parent_dir-shorter :
    (path : Text)
    → (str_eq (parent_dir path) path ≡ true) ⊎ (length (parent_dir path) < length path)
unfolding parent_dir
parent_dir-shorter path = elim (parent_of-shorter path (before_last path) refl) [
  | inl e ↦ inl ((str_eq_iff _ path).1 e)
  | inr l ↦ inr l
]

module _ (index : PermissionIndex) (principal : Principal) (roots : List Text) where
  -- A directory can be entered: it is outside the scan, or the principal may search it and, unless
  -- it is the top, can enter its parent.
  pub data Enters : Text → Type 0 where
    outside : (path : Text) → within_scope path roots ≡ false → Enters path
    top :
        (path : Text)
        → within_scope path roots ≡ true
        → str_eq (parent_dir path) path ≡ true
        → has_search path index principal ≡ true
        → Enters path
    below :
        (path : Text)
        → within_scope path roots ≡ true
        → str_eq (parent_dir path) path ≡ false
        → Enters (parent_dir path)
        → has_search path index principal ≡ true
        → Enters path

  Enters-has_search :
      (path : Text)
      → within_scope path roots ≡ true
      → Enters path
      → has_search path index principal ≡ true
  Enters-has_search _ w (Enters.outside path e) = absurd (cc (w, e))
  Enters-has_search _ w (Enters.top path e f g) = g
  Enters-has_search _ w (Enters.below path e f g h) = h

  Enters-parent_dir :
      (path : Text)
      → within_scope path roots ≡ true
      → str_eq (parent_dir path) path ≡ false
      → Enters path
      → Enters (parent_dir path)
  Enters-parent_dir _ w t (Enters.outside path e) = absurd (cc (w, e))
  Enters-parent_dir _ w t (Enters.top path e f g) = absurd (cc (t, f))
  Enters-parent_dir _ w t (Enters.below path e f g h) = g

  -- What the cache holds is right.
  abbrev pub IsSound : Cache → Type 0
  IsSound cache = (k : Text) (v : Bool) → Map.get k cache ≡ some v → (v ≡ true) ↔ Enters k

  remember-IsSound :
      (path : Text) (verdict : Bool) (cache : Cache)
      → ((verdict ≡ true) ↔ Enters path)
      → IsSound cache
      → IsSound ((path, verdict) ∷ cache)
  unfolding Map.get
  remember-IsSound path verdict cache r s k v g = elim (Bool-cases (str_eq path k)) [
    | inl e ↦
        let same : verdict ≡ v = cc (rw e at g) in
        subst (λ x. (v ≡ true) ↔ Enters x) ((str_eq_iff path k).0 e)
          (subst (λ b. (b ≡ true) ↔ Enters path) same r)
    | inr e ↦ s k v (rw e at g)
  ]

  -- The verdict of the climb, and the cache that it leaves, are right.
  abbrev pub Right : Text → Bool × Cache → Type 0
  Right path r = ((r.0 ≡ true) ↔ Enters path) × IsSound r.1

  conclude-Right :
      (path : Text) (b : Bool) (cache : Cache) (above : Bool × Cache)
      → str_eq (parent_dir path) path ≡ b
      → within_scope path roots ≡ true
      → IsSound cache
      → ((b ≡ true) ⊎ Right (parent_dir path) above)
      → Right path (conclude b path (has_search path index principal) cache above)
  conclude-Right path true cache above e w s h =
      let r : (has_search path index principal ≡ true) ↔ Enters path =
        (λ q. Enters.top path w e q, λ x. Enters-has_search path w x) in
      (r, remember-IsSound path _ cache r s)
  conclude-Right path false cache above e w s (inl z) = absurd (cc z)
  conclude-Right path false cache above e w s (inr h) =
      let r : ((above.0 && has_search path index principal) ≡ true) ↔ Enters path = (
        λ q. Enters.below path w e (h.0.0 (ground (arith, q))) (ground (arith, q)),
        λ x. ground (arith, h.0.1 (Enters-parent_dir path w e x), Enters-has_search path w x),
      ) in
      (r, remember-IsSound path _ above.1 r h.1)

  -- With more fuel than the path is long and a cache that is right, the climb finds exactly whether
  -- the directory can be entered, and leaves a cache that is right.
  pub reachable_dir-Right :
      (fuel : ℕ) (path : Text) (cache : Cache)
      → length path < fuel
      → IsSound cache
      → Right path (reachable_dir fuel path index principal roots cache)
  unfolding reachable_dir
  reachable_dir-Right zero path cache l s = absurd (omega arith)
  reachable_dir-Right (suc fuel) path cache l s =
      let above = reachable_dir fuel (parent_dir path) index principal roots cache in
      let climbed : (str_eq (parent_dir path) path ≡ true) ⊎ Right (parent_dir path) above =
        elim (parent_dir-shorter path) [
          | inl e ↦ inl e
          | inr m ↦ inr (reachable_dir-Right fuel (parent_dir path) cache (omega (arith, m, l)) s)
        ] in
      elim (Bool-cases (within_scope path roots)) [
        | inl w ↦ rw w (
            recalled path cache s (Map.get path cache) refl _
              (conclude-Right path (str_eq (parent_dir path) path) cache above refl w s climbed))
        | inr w ↦ rw w ((λ q. Enters.outside path w, λ x. refl), s)
      ]
    where
      recalled :
          (path : Text) (cache : Cache)
          → IsSound cache
          → (o : Option Bool) → Map.get path cache ≡ o
          → (fresh : Bool × Cache) → Right path fresh
          → Right path (recall o cache fresh)
      recalled path cache s none e fresh r = r
      recalled path cache s (some v) e fresh r = (s path v e, s)
