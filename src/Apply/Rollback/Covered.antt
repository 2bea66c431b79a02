-- ===== src/Apply/Rollback/Covered.antt =====
-- The paths that src/apply.rs gathers before the snapshots cover what its phases touch.
use census.Prelude.{
  In-map, any_of_In, refl, map, any-true, ◌||◌, path_eq, arith, [], ◌≡◌, ◌∷◌, any, ◌++◌, Text, List,
  true, In, inl, inr, Bool-cases,
}
use census.Apply.Seams.{Seam, covered, RespectsPaths}
use census.Apply.Touched.{push_path, push_paths}

module _ {S A C : Type 0} (seam : Seam S A C) where
  -- What `ps` reach, `qs` reach.
  abbrev pub Within : List Text → List Text → Type 0
  Within ps qs = (x : Text) → covered seam ps x ≡ true → covered seam qs x ≡ true

  covered-append :
      (ps qs : List Text) (x : Text)
      → covered seam (ps ++ qs) x ≡ (covered seam ps x || covered seam qs x)
  covered-append [] qs x = refl
  covered-append (p ∷ ps) qs x = ground (arith, covered-append ps qs x)

  pub Within-append_left : (ps qs : List Text) → Within ps (ps ++ qs)
  Within-append_left ps qs x h = ground (arith, covered-append ps qs x, h)

  pub Within-append_right : (ps qs : List Text) → Within qs (ps ++ qs)
  Within-append_right ps qs x h = ground (arith, covered-append ps qs x, h)

  pub Within-map :
      {B : Type 0} (f : B → Text) (b : B) (l : List B) → In b l → Within (f b ∷ []) (map f l)
  Within-map f b l i x h =
      any_of_In (λ p. seam.reach p x) (f b) (map f l) (In-map f b l i) (ground (arith, h))

  module _ (respects : RespectsPaths seam) where
    push_path-keeps : (p : Text) (paths : List Text) → Within paths (push_path p paths)
    unfolding push_path
    push_path-keeps p paths x h = elim (Bool-cases (any (λ q. path_eq q p) paths)) [
      | inl e ↦ rw e h
      | inr e ↦ rw e (Within-append_left paths (p ∷ []) x h)
    ]

    push_path-covers : (p : Text) (paths : List Text) → Within (p ∷ []) (push_path p paths)
    unfolding push_path
    push_path-covers p paths x h = elim (Bool-cases (any (λ q. path_eq q p) paths)) [
      | inl e ↦
          let t = any-true (λ q. path_eq q p) paths e in
          rw e (
            any_of_In (λ q. seam.reach q x) t.0 paths t.1 (ground (arith, h, respects t.0 p x t.2)))
      | inr e ↦ rw e (Within-append_right paths (p ∷ []) x h)
    ]

    pub push_paths-keeps : (ps paths : List Text) → Within paths (push_paths ps paths)
    unfolding push_paths
    push_paths-keeps [] paths x h = h
    push_paths-keeps (p ∷ ps) paths x h =
        push_paths-keeps ps (push_path p paths) x (push_path-keeps p paths x h)

    pub push_paths-covers : (ps paths : List Text) → Within ps (push_paths ps paths)
    unfolding push_paths
    push_paths-covers [] paths x h = cc
    push_paths-covers (p ∷ ps) paths x h = elim (Bool-cases (seam.reach p x)) [
      | inl e ↦ push_paths-keeps ps (push_path p paths) x (push_path-covers p paths x (rw e refl))
      | inr e ↦ push_paths-covers ps (push_path p paths) x (rw e at h)
    ]
