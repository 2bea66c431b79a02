-- ===== src/Apply/Rollback/PhasesGroups.antt =====
-- Phase 3c of src/apply.rs, the grants of groups, keeps the state recoverable or ends with a
-- rollback.
use census.Prelude.Map
use census.Prelude.{
  length, none, not, is_empty, if◌then◌else◌, ◌&&◌, codes, [], Bool-cases, ◌∷◌, true, str_eq, false,
  some, ◌≡◌, Option, find, Bool, Text, List, inl, inr, refl, str_eq_iff,
}
use census.Apply.Exec.{
  group_materialized, push_log, count, provision, access, done, group_teardown, group_release,
  for_each, LogLine, ◌>>◌,
}
use census.Apply.Rollback.Setup.{
  provision_elsewhere, BothRecoverable, provision-Within, Saved, SafePhase, chain, each,
}
use census.Apply.Rollback.Phases.{revoke_each-SafePhase, materialize-Within, revoke-Local}
use census.Prelude.Map.{Map}
use census.Apply.Touched.{grants_of, managed_paths, grant_paths, resolved_group_by_name}
use census.State.{ManagedFileGrant, ManagedGroup}
use census.Model.{ResolvedGroup}
use census.FileAccess.{group, Effect}
use census.Plan.{GroupAction}
use census.Catalog.Grants.{ResolvedFileGrant}
use census.Apply.Rollback.Covered.{Within}
use census.Apply.Phases.{
  has_name, capture_if, revoke_one_group, group_access, add_member, sync_members, strip_group,
  revoke_group_grants, remove_member, group_grant_step, grant_group, capture_baseline,
}
use census.Provision.{ProvisionError}
use census.Inspect.{SystemInspector}
use census.Sudoers.{sudoers_group_path}
use census.Apply.Rollback.Host.{Local}
use census.Apply.Rollback.{fail_corrupt_plan-Safe}
use census.Apply.Groups.{members_added_of, removed_group_grants}

find-true : {B : Type 0} (p : B → Bool) (l : List B) (x : B) → find p l ≡ some x → p x ≡ true
find-true p [] x h = cc
find-true p (y ∷ l) x h = elim (Bool-cases (p y)) [
  | inl e ↦ let k : some y ≡ some x = rw e at h in cc (k, e)
  | inr e ↦ find-true p l x (rw e at h)
]

-- The group that is found has the name.
pub resolved_group-name :
    (groups : List ResolvedGroup) (name : Text) (g : ResolvedGroup)
    → resolved_group_by_name groups name ≡ some g
    → g.name ≡ name
unfolding resolved_group_by_name
resolved_group-name groups name g h =
    (str_eq_iff g.name name).0 (find-true (λ x. str_eq x.name name) groups g h)

module _ {P F A C D : Type 0} (c : Saved P F A C D) (managed : Map ManagedGroup) where
  revoke_group-SafePhase :
      (name : Text) (removed : List ManagedFileGrant)
      → Within c.sf (managed_paths removed) c.paths
      → SafePhase c (revoke_group_grants c.provisioner c.backend name removed)
  unfolding revoke_group_grants revoke_one_group
  revoke_group-SafePhase name removed =
      revoke_each-SafePhase c _ removed (revoke-Local c (group name))

  group_access-SafePhase :
      (name : Text) (grants : List ResolvedFileGrant)
      → Within c.sf (grant_paths grants) c.paths
      → Within c.sf (managed_paths (removed_group_grants name grants managed)) c.paths
      → SafePhase c (
          if is_empty grants
          then revoke_group_grants c.provisioner c.backend name
              (removed_group_grants name [] managed)
          else (access c.provisioner c.backend (c.backend.materialize (group name) grants)
              >> revoke_group_grants c.provisioner c.backend name
                  (removed_group_grants name grants managed)
              >> push_log (group_materialized (length grants) name)))
  group_access-SafePhase name [] g r = revoke_group-SafePhase name _ r
  group_access-SafePhase name (x ∷ grants) g r =
      chain c _ _
        (chain c _ _ (materialize-Within c (group name) (x ∷ grants) g)
          (revoke_group-SafePhase name _ r))
        (λ s h. h)

  member-SafePhase :
      (b : Bool) (e : Effect ProvisionError P)
      → Local c.sp [] e
      → SafePhase c (
          if b then done else (provision c.provisioner c.backend (codes "group-member") e >> count))
  member-SafePhase true e l s h = h
  member-SafePhase false e l s h =
      chain c _ _ (provision_elsewhere c (codes "group-member") e l) (λ s h. h) s h

  remove_members-SafePhase :
      (name : Text) (wanted members : List Text)
      → SafePhase c (for_each (remove_member c.provisioner c.backend name wanted) members)
  unfolding remove_member
  remove_members-SafePhase name wanted members =
      each c _ members
        (λ m i. member-SafePhase (has_name wanted m) _ (c.lp.remove_member_lem name m))

  sync_members-SafePhase :
      (name : Text) (current wanted : List Text)
      → SafePhase c (sync_members c.provisioner c.backend name current wanted)
  unfolding sync_members add_member
  sync_members-SafePhase name current wanted =
      chain c _ _
        (each c _ wanted
          (λ m i. member-SafePhase (has_name current m) _ (c.lp.add_member_lem name m)))
        (remove_members-SafePhase name wanted current)

  capture_if-SafePhase :
      (b : Bool) (inspector : SystemInspector P) (name : Text)
      → SafePhase c (capture_if c.provisioner c.backend b inspector name)
  unfolding capture_baseline
  capture_if-SafePhase true inspector name s h = h
  capture_if-SafePhase false inspector name s h = h

  -- What a group with grants touches is saved.
  pub record GrantSaved (name : Text) (o : Option ResolvedGroup) : Type 0 where
    pub named : (g : ResolvedGroup) → o ≡ some g → g.name ≡ name
    pub fragment_saved : Within c.sp (sudoers_group_path c.sudoers_dir name ∷ []) c.fragments
    pub granted_saved : Within c.sf (grant_paths (grants_of o)) c.paths
    pub removed_saved :
        Within c.sf (managed_paths (removed_group_grants name (grants_of o) managed)) c.paths

  grant_group-SafePhase :
      (inspector : SystemInspector P) (is_adopt : Bool) (name : Text) (o : Option ResolvedGroup)
      → GrantSaved name o
      → SafePhase c (grant_group c.provisioner c.backend inspector managed is_adopt name o)
  unfolding grant_group group_access
  grant_group-SafePhase inspector is_adopt name none k =
      fail_corrupt_plan-Safe c.provisioner c.backend (BothRecoverable c) name
  grant_group-SafePhase inspector is_adopt name (some g) k =
      chain c _ _
        (chain c _ _
          (chain c _ _
            (chain c _ _
              (chain c _ _
                (capture_if-SafePhase (is_adopt && not (Map.contains_key name managed)) inspector
                  name)
                (provision-Within c (codes "group-sudoers") _ (c.provisioner.apply_group_sudoers g)
                  (c.lp.apply_group_sudoers_lem g) (rw (k.named g refl) k.fragment_saved)))
              (group_access-SafePhase name g.file_grants k.granted_saved k.removed_saved))
            (sync_members-SafePhase name (members_added_of name managed) g.members))
          (λ s h. h))
        (λ s h. h)

  -- What a group that loses its grants touches is saved.
  pub record StripSaved (name : Text) : Type 0 where
    pub fragment_saved : Within c.sp (sudoers_group_path c.sudoers_dir name ∷ []) c.fragments
    pub removed_saved : Within c.sf (managed_paths (removed_group_grants name [] managed)) c.paths

  strip_group-SafePhase :
      (line : LogLine) (name : Text)
      → StripSaved name
      → SafePhase c (strip_group c.provisioner c.backend managed line name)
  unfolding strip_group
  strip_group-SafePhase line name k =
      chain c _ _
        (chain c _ _
          (chain c _ _
            (provision-Within c (codes "group-sudoers") _ (c.provisioner.remove_group_sudoers name)
              (c.lp.remove_group_sudoers_lem name) k.fragment_saved)
            (revoke_group-SafePhase name _ k.removed_saved))
          (remove_members-SafePhase name [] (members_added_of name managed)))
        (λ s h. h)

  -- What a group action touches is saved.
  abbrev pub GroupSaved : List ResolvedGroup → GroupAction → Type 0
  GroupSaved groups (GroupAction.create name gid) =
      GrantSaved name (resolved_group_by_name groups name)
  GroupSaved groups (GroupAction.adopt name) = GrantSaved name (resolved_group_by_name groups name)
  GroupSaved groups (GroupAction.update name changes) =
      GrantSaved name (resolved_group_by_name groups name)
  GroupSaved groups (GroupAction.release name) = StripSaved name
  GroupSaved groups (GroupAction.delete name) = StripSaved name

  pub group_grant-SafePhase :
      (inspector : SystemInspector P) (groups : List ResolvedGroup) (ga : GroupAction)
      → GroupSaved groups ga
      → SafePhase c (group_grant_step c.provisioner c.backend inspector groups managed ga)
  unfolding group_grant_step
  group_grant-SafePhase inspector groups (GroupAction.create name gid) k =
      grant_group-SafePhase inspector false name (resolved_group_by_name groups name) k
  group_grant-SafePhase inspector groups (GroupAction.adopt name) k =
      grant_group-SafePhase inspector true name (resolved_group_by_name groups name) k
  group_grant-SafePhase inspector groups (GroupAction.update name changes) k =
      grant_group-SafePhase inspector false name (resolved_group_by_name groups name) k
  group_grant-SafePhase inspector groups (GroupAction.release name) k =
      strip_group-SafePhase (group_release name) name k
  group_grant-SafePhase inspector groups (GroupAction.delete name) k =
      strip_group-SafePhase (group_teardown name) name k
