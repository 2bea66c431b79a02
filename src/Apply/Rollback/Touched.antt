-- ===== src/Apply/Rollback/Touched.antt =====
-- The loops of src/apply.rs that gather paths: every path that an action of the plan touches is
-- among them.
use census.Prelude.{[], ◌∷◌, Text, List, In, inl, inr}
use census.Apply.Seams.{Seam, RespectsPaths}
use census.Apply.Touched.{
  revoked_by, managed_paths, grant_paths, target_paths, revoked_paths, file_access_touched_paths,
  push_paths,
}
use census.Apply.Rollback.Covered.{push_paths-keeps, push_paths-covers, Within}
use census.Plan.{Action}
use census.Model.{ResolvedAccount}
use census.Prelude.Map.{Map}
use census.State.{ManagedAccount}

module _ {S A C : Type 0} (seam : Seam S A C) (respects : RespectsPaths seam) where
  target_paths-keeps :
      (targets : List ResolvedAccount) (paths : List Text)
      → Within seam paths (target_paths targets paths)
  unfolding target_paths
  target_paths-keeps [] paths x h = h
  target_paths-keeps (t ∷ targets) paths x h =
      target_paths-keeps targets (push_paths (grant_paths t.file_grants) paths) x
        (push_paths-keeps seam respects (grant_paths t.file_grants) paths x h)

  target_paths-covers :
      (t : ResolvedAccount) (targets : List ResolvedAccount) (paths : List Text)
      → In t targets
      → Within seam (grant_paths t.file_grants) (target_paths targets paths)
  unfolding target_paths
  target_paths-covers t [] paths i x h = absurd i
  target_paths-covers t (u ∷ targets) paths (inl e) x h =
      target_paths-keeps targets (push_paths (grant_paths u.file_grants) paths) x
        (push_paths-covers seam respects (grant_paths u.file_grants) paths x (rw e at h))
  target_paths-covers t (u ∷ targets) paths (inr i) x h =
      target_paths-covers t targets (push_paths (grant_paths u.file_grants) paths) i x h

  revoked_paths-keeps :
      (actions : List Action) (managed : Map ManagedAccount) (paths : List Text)
      → Within seam paths (revoked_paths actions managed paths)
  unfolding revoked_paths
  revoked_paths-keeps [] managed paths x h = h
  revoked_paths-keeps (a ∷ actions) managed paths x h =
      revoked_paths-keeps actions managed (push_paths (managed_paths (revoked_by managed a)) paths)
        x (push_paths-keeps seam respects (managed_paths (revoked_by managed a)) paths x h)

  revoked_paths-covers :
      (a : Action) (actions : List Action) (managed : Map ManagedAccount) (paths : List Text)
      → In a actions
      → Within seam (managed_paths (revoked_by managed a)) (revoked_paths actions managed paths)
  unfolding revoked_paths
  revoked_paths-covers a [] managed paths i x h = absurd i
  revoked_paths-covers a (b ∷ actions) managed paths (inl e) x h =
      revoked_paths-keeps actions managed (push_paths (managed_paths (revoked_by managed b)) paths)
        x
        (push_paths-covers seam respects (managed_paths (revoked_by managed b)) paths x (rw e at h))
  revoked_paths-covers a (b ∷ actions) managed paths (inr i) x h =
      revoked_paths-covers a actions managed
        (push_paths (managed_paths (revoked_by managed b)) paths) i x h

  -- The grants of every target.
  pub touched-targets :
      (actions : List Action) (targets : List ResolvedAccount) (managed : Map ManagedAccount)
      (t : ResolvedAccount)
      → In t targets
      → Within seam (grant_paths t.file_grants) (file_access_touched_paths actions targets managed)
  unfolding file_access_touched_paths
  touched-targets actions targets managed t i x h =
      revoked_paths-keeps actions managed (target_paths targets []) x
        (target_paths-covers t targets [] i x h)

  -- What every account action revokes.
  pub touched-revoked :
      (actions : List Action) (targets : List ResolvedAccount) (managed : Map ManagedAccount)
      (a : Action)
      → In a actions
      → Within seam
          (managed_paths (revoked_by managed a))
          (file_access_touched_paths actions targets managed)
  unfolding file_access_touched_paths
  touched-revoked actions targets managed a i =
      revoked_paths-covers a actions managed (target_paths targets []) i
