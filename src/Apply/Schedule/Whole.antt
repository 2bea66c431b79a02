-- ===== src/Apply/Schedule/Whole.antt =====
-- The grants of groups, and all the mutating phases of src/apply.rs together, against the schedule.
use census.Prelude.Map
use census.Prelude.{
  none, length, not, ◌&&◌, ◌∷◌, true, some, false, is_empty, [], ◌≡◌, if◌then◌else◌, Option, Bool,
  Text, List, refl, ◌++◌, codes,
}
use census.Apply.Exec.{
  group_teardown, group_materialized, push_log, group_release, count, provision, access, done, Exec,
  for_each, RunState, LogLine, ◌>>◌,
}
use census.Apply.Schedule.{
  materialization, on_system, revocations, perform, joins, granted_ops, stripped_ops, perform_all,
  leaves, group_ops, Op, schedule, concat_map,
}
use census.Apply.Schedule.Refines.{
  one-SystemOps, provision-Refines, fail_corrupt_plan-Refines, Alike, for_each-Refines,
}
use census.Apply.Schedule.Phases.{
  materialize-Does, delete_group-Does, revoke_deleted-Does, nothing, file_access-Does, account-Does,
  quietly, create_group-Does, revoke_each-Does, Does, then_do,
}
use census.Provision.{ProvisionError, Provisioner}
use census.FileAccess.{group, Effect, FileAccessBackend}
use census.Catalog.Grants.{ResolvedFileGrant}
use census.Apply.Phases.{
  has_name, capture_if, revoke_one_group, group_access, add_member, sync_members, strip_group,
  revoke_group_grants, remove_member, group_grant_step, grant_group, capture_baseline,
}
use census.Apply.Run.{mutate}
use census.Apply.Prepare.{Prepared, ApplyInputs}
use census.Prelude.Map.{Map}
use census.State.{ManagedGroup, ManagedFileGrant}
use census.Inspect.{SystemInspector}
use census.Model.{ResolvedGroup}
use census.Plan.{GroupAction}
use census.Apply.Groups.{members_added_of, removed_group_grants}
use census.Apply.Touched.{resolved_group_by_name}

module _ {P F : Type 0} (provisioner : Provisioner P) (backend : FileAccessBackend F) where
  revoke_group-Does :
      (name : Text) (removed : List ManagedFileGrant)
      → Does provisioner backend
          (revoke_group_grants provisioner backend name removed)
          (revocations (group name) removed)
  unfolding revoke_group_grants revoke_one_group
  revoke_group-Does name removed =
      revoke_each-Does provisioner backend (group name) _ removed (λ r. refl)

  group_access-Does :
      (name : Text) (grants : List ResolvedFileGrant) (managed : Map ManagedGroup)
      → Does provisioner backend
          (if is_empty grants
            then revoke_group_grants provisioner backend name (removed_group_grants name [] managed)
            else (access provisioner backend (backend.materialize (group name) grants)
                >> revoke_group_grants provisioner backend name
                    (removed_group_grants name grants managed)
                >> push_log (group_materialized (length grants) name)))
          (materialization (group name) grants
            ++ revocations (group name) (removed_group_grants name grants managed))
  group_access-Does name [] managed = revoke_group-Does name (removed_group_grants name [] managed)
  group_access-Does name (g ∷ grants) managed =
      quietly provisioner backend _ _ _
        (then_do provisioner backend _ _ _ _
          (materialize-Does provisioner backend (group name) (g ∷ grants))
          (revoke_group-Does name (removed_group_grants name (g ∷ grants) managed)))
        (λ s. refl)

  member-Does :
      (b : Bool) (e : Effect ProvisionError P) (op : Op)
      → ((p : P) (f : F) → perform provisioner backend op p f ≡ on_system provisioner backend e p f)
      → Does provisioner backend
          (if b then done else (provision provisioner backend (codes "group-member") e >> count))
          (if b then [] else op ∷ [])
  member-Does true e op h = nothing provisioner backend
  member-Does false e op h =
      quietly provisioner backend _ _ _
        (provision-Refines provisioner backend (codes "group-member") e _
          (one-SystemOps provisioner backend e op h))
        (λ s. refl)

  leaves-Does :
      (name : Text) (wanted members : List Text)
      → Does provisioner backend
          (for_each (remove_member provisioner backend name wanted) members)
          (leaves name wanted members)
  unfolding remove_member leaves perform
  leaves-Does name wanted members = for_each-Refines provisioner backend _ _ members (λ m.
      member-Does (has_name wanted m) (provisioner.remove_group_member name m) _ (λ p f. refl))

  sync_members-Does :
      (name : Text) (current wanted : List Text)
      → Does provisioner backend
          (sync_members provisioner backend name current wanted)
          (joins name current wanted ++ leaves name wanted current)
  unfolding sync_members add_member joins perform
  sync_members-Does name current wanted =
      then_do provisioner backend _ _ _ _
        (for_each-Refines provisioner backend _ _ wanted (λ m.
          member-Does (has_name current m) (provisioner.add_group_member name m) _ (λ p f. refl)))
        (leaves-Does name wanted current)

  capture-Does :
      (b : Bool) (inspector : SystemInspector P) (name : Text)
      → Does provisioner backend (capture_if provisioner backend b inspector name) []
  unfolding capture_baseline perform_all
  capture-Does true inspector name s = refl
  capture-Does false inspector name s = refl

  grant_group-Does :
      (inspector : SystemInspector P) (managed : Map ManagedGroup) (is_adopt : Bool) (name : Text)
      (o : Option ResolvedGroup)
      → Does provisioner backend
          (grant_group provisioner backend inspector managed is_adopt name o)
          (granted_ops managed name o)
  unfolding grant_group group_access granted_ops perform
  grant_group-Does inspector managed is_adopt name none =
      fail_corrupt_plan-Refines provisioner backend name
  grant_group-Does inspector managed is_adopt name (some g) =
      (quietly provisioner backend _ _ _
        (quietly provisioner backend _ _ _
          (then_do provisioner backend _ _ _ _
            (then_do provisioner backend _ _ _ _
              (then_do provisioner backend _ _ [] _
                (capture-Does (is_adopt && not (Map.contains_key name managed)) inspector name)
                (provision-Refines provisioner backend (codes "group-sudoers")
                  (provisioner.apply_group_sudoers g) _
                  (one-SystemOps provisioner backend (provisioner.apply_group_sudoers g)
                    (Op.apply_group_sudoers g) (λ p f. refl))))
              (group_access-Does name g.file_grants managed))
            (sync_members-Does name (members_added_of name managed) g.members))
          (λ s. refl))
        (λ s. refl))

  strip_group-Does :
      (managed : Map ManagedGroup) (line : LogLine) (name : Text)
      → Does provisioner backend
          (strip_group provisioner backend managed line name)
          (stripped_ops managed name)
  unfolding strip_group stripped_ops perform
  strip_group-Does managed line name =
      (quietly provisioner backend _ _ _
        (then_do provisioner backend _ _ _ _
          (then_do provisioner backend _ _ _ _
            (provision-Refines provisioner backend (codes "group-sudoers")
              (provisioner.remove_group_sudoers name) _
              (one-SystemOps provisioner backend (provisioner.remove_group_sudoers name)
                (Op.remove_group_sudoers name) (λ p f. refl)))
            (revoke_group-Does name (removed_group_grants name [] managed)))
          (leaves-Does name [] (members_added_of name managed)))
        (λ s. refl))

  group_grant-Does :
      (inspector : SystemInspector P) (groups : List ResolvedGroup) (managed : Map ManagedGroup)
      (ga : GroupAction)
      → Does provisioner backend
          (group_grant_step provisioner backend inspector groups managed ga)
          (group_ops groups managed ga)
  unfolding group_grant_step group_ops
  group_grant-Does inspector groups managed (GroupAction.create name gid) =
      grant_group-Does inspector managed false name (resolved_group_by_name groups name)
  group_grant-Does inspector groups managed (GroupAction.adopt name) =
      grant_group-Does inspector managed true name (resolved_group_by_name groups name)
  group_grant-Does inspector groups managed (GroupAction.update name changes) =
      grant_group-Does inspector managed false name (resolved_group_by_name groups name)
  group_grant-Does inspector groups managed (GroupAction.release name) =
      strip_group-Does managed (group_release name) name
  group_grant-Does inspector groups managed (GroupAction.delete name) =
      strip_group-Does managed (group_teardown name) name

  -- The mutating phases do to the two seams what the schedule of single operations does: they
  -- succeed when it runs to its end, with the same states; when an operation of it fails, or a group
  -- was not resolved, they stop there, report that fault, and have restored both seams, once, from
  -- the states it left.
  pub mutate-refines_schedule :
      (inputs : ApplyInputs P) (prep : Prepared) (s : RunState P F)
      → Alike provisioner backend
          (mutate provisioner backend inputs prep s).0
          (mutate provisioner backend inputs prep s).1
          (perform_all provisioner backend (schedule inputs.state prep) s.prov s.files)
  unfolding mutate schedule
  mutate-refines_schedule inputs prep =
      then_do provisioner backend _ _ _ _
        (then_do provisioner backend _ _ _ _
          (then_do provisioner backend _ _ _ _
            (then_do provisioner backend _ _ _ _
              (then_do provisioner backend _ _ _ _
                (each-Does _ _ prep.plan.group_actions (create_group-Does provisioner backend))
                (each-Does _ _ prep.plan.actions (account-Does provisioner backend)))
              (each-Does _ _ prep.plan.actions
                (file_access-Does provisioner backend inputs.state.accounts)))
            (each-Does _ _ prep.plan.actions
              (revoke_deleted-Does provisioner backend inputs.state.accounts)))
          (each-Does _ _ prep.rgroup_actions
            (group_grant-Does inputs.inspector prep.resolved_groups inputs.state.groups)))
        (each-Does _ _ prep.plan.group_actions (delete_group-Does provisioner backend))
    where
      each-Does :
          {A : Type 0} (f : A → Exec P F) (g : A → List Op) (xs : List A)
          → ((x : A) → Does provisioner backend (f x) (g x))
          → Does provisioner backend (for_each f xs) (concat_map g xs)
      each-Does f g xs h = for_each-Refines provisioner backend f g xs h
