-- ===== src/Apply/Rollback/TouchedGroups.antt =====
-- The loop of src/apply.rs over the group actions gathers every path that one of them touches.
use census.Prelude.{◌∷◌, [], Text, List, In, inl, inr}
use census.Apply.Seams.{Seam, RespectsPaths}
use census.Apply.Touched.{
  resolved_group_by_name, managed_paths, grants_of, grant_paths, stripped_paths, group_paths_from,
  group_file_access_touched_paths, group_action_paths, granted_paths, push_paths,
}
use census.Apply.Rollback.Covered.{push_paths-covers, push_paths-keeps, Within}
use census.Model.{ResolvedGroup}
use census.Prelude.Map.{Map}
use census.State.{ManagedGroup}
use census.Plan.{GroupAction}
use census.Apply.Groups.{removed_group_grants}

module _ {S A C : Type 0} (seam : Seam S A C) (respects : RespectsPaths seam)
    (groups : List ResolvedGroup) (managed : Map ManagedGroup) where
  granted_paths-keeps :
      (name : Text) (paths : List Text)
      → Within seam paths (granted_paths name groups managed paths)
  unfolding granted_paths
  granted_paths-keeps name paths x h =
      let keep = grants_of (resolved_group_by_name groups name) in
      push_paths-keeps seam respects (managed_paths (removed_group_grants name keep managed))
        (push_paths (grant_paths keep) paths) x
        (push_paths-keeps seam respects (grant_paths keep) paths x h)

  -- What a group with grants materializes and what it gives up.
  pub granted_paths-covers :
      (name : Text) (paths : List Text)
      → Within seam
          (grant_paths (grants_of (resolved_group_by_name groups name)))
          (granted_paths name groups managed paths)
  unfolding granted_paths
  granted_paths-covers name paths x h =
      let keep = grants_of (resolved_group_by_name groups name) in
      push_paths-keeps seam respects (managed_paths (removed_group_grants name keep managed))
        (push_paths (grant_paths keep) paths) x
        (push_paths-covers seam respects (grant_paths keep) paths x h)

  pub granted_paths-removed :
      (name : Text) (paths : List Text)
      → Within seam
          (managed_paths
            (removed_group_grants name (grants_of (resolved_group_by_name groups name)) managed))
          (granted_paths name groups managed paths)
  unfolding granted_paths
  granted_paths-removed name paths =
      let keep = grants_of (resolved_group_by_name groups name) in
      push_paths-covers seam respects (managed_paths (removed_group_grants name keep managed))
        (push_paths (grant_paths keep) paths)

  stripped_paths-keeps :
      (name : Text) (paths : List Text) → Within seam paths (stripped_paths name managed paths)
  unfolding stripped_paths
  stripped_paths-keeps name paths =
      push_paths-keeps seam respects (managed_paths (removed_group_grants name [] managed)) paths

  pub stripped_paths-removed :
      (name : Text) (paths : List Text)
      → Within seam
          (managed_paths (removed_group_grants name [] managed))
          (stripped_paths name managed paths)
  unfolding stripped_paths
  stripped_paths-removed name paths =
      push_paths-covers seam respects (managed_paths (removed_group_grants name [] managed)) paths

  group_action_paths-keeps :
      (ga : GroupAction) (paths : List Text)
      → Within seam paths (group_action_paths ga groups managed paths)
  unfolding group_action_paths
  group_action_paths-keeps (GroupAction.create name gid) paths = granted_paths-keeps name paths
  group_action_paths-keeps (GroupAction.adopt name) paths = granted_paths-keeps name paths
  group_action_paths-keeps (GroupAction.update name changes) paths = granted_paths-keeps name paths
  group_action_paths-keeps (GroupAction.release name) paths = stripped_paths-keeps name paths
  group_action_paths-keeps (GroupAction.delete name) paths = stripped_paths-keeps name paths

  group_paths_from-keeps :
      (actions : List GroupAction) (paths : List Text)
      → Within seam paths (group_paths_from actions groups managed paths)
  unfolding group_paths_from
  group_paths_from-keeps [] paths x h = h
  group_paths_from-keeps (ga ∷ actions) paths x h =
      group_paths_from-keeps actions (group_action_paths ga groups managed paths) x
        (group_action_paths-keeps ga paths x h)

  -- What one round gathers, whatever was gathered before, the loop gathers.
  group_paths_from-covers :
      (ga : GroupAction) (ps : List Text) (actions : List GroupAction) (paths : List Text)
      → ((qs : List Text) → Within seam ps (group_action_paths ga groups managed qs))
      → In ga actions
      → Within seam ps (group_paths_from actions groups managed paths)
  unfolding group_paths_from
  group_paths_from-covers ga ps [] paths w i x h = absurd i
  group_paths_from-covers ga ps (b ∷ actions) paths w (inl e) x h =
      group_paths_from-keeps actions (group_action_paths b groups managed paths) x
        (rw (← e) (w paths x h))
  group_paths_from-covers ga ps (b ∷ actions) paths w (inr i) x h =
      group_paths_from-covers ga ps actions (group_action_paths b groups managed paths) w i x h

  pub touched-group_action :
      (actions : List GroupAction) (ga : GroupAction) (ps : List Text)
      → ((qs : List Text) → Within seam ps (group_action_paths ga groups managed qs))
      → In ga actions
      → Within seam ps (group_file_access_touched_paths actions groups managed)
  unfolding group_file_access_touched_paths
  touched-group_action actions ga ps w i = group_paths_from-covers ga ps actions [] w i
