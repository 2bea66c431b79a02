-- ===== src/Apply/Phases.antt =====
-- The phases of an apply run after the snapshots (src/apply.rs, `run`), in the order of the code.
use census.Prelude.Map
use census.Prelude.{
  length, not, [], ◌&&◌, ◌∷◌, str_eq, none, is_empty, some, if◌then◌else◌, any, ◌++◌, Text, List,
  Option, ℕ, ok, codes, Bool, true, false,
}
use census.State.{ManagedFileGrant, ManagedAccount, ManagedGroup, GroupBaseline}
use census.Model.{ResolvedAccount, ResolvedGroup}
use census.Plan.{Action, GroupAction}
use census.Provision.{ProvisionError, Provisioner}
use census.FileAccess.{FileAccessError, FileAccessBackend, Effect, user, group, uid}
use census.Apply.Accounts.{removed_grants}
use census.Apply.Groups.{live_gid, removed_group_grants, members_added_of, or_else}
use census.Apply.Touched.{resolved_from_managed, resolved_group_by_name}
use census.Apply.Exec.{
  access, group_grants, materialized, group_materialized, deleted_group, created_group,
  account_action, push_log, group_teardown, count, group_release, fail_corrupt_plan, adopted_group,
  LogLine, ◌>>◌, provision, for_each, done, and_then, Exec,
}
use census.Inspect.{SystemInspector}
use census.Prelude.Map.{Map}

-- `contains` on a list of names
abbrev pub has_name : List Text → Text → Bool
has_name names m = any (λ n. str_eq n m) names

module _ {P F : Type 0} (provisioner : Provisioner P) (backend : FileAccessBackend F) where
  -- Phase 1
  abbrev pub record_created : Text → Option ℕ → Exec P F
  record_created name gid s = (
    ok tt,
    record s {
      created_groups =
          s.created_groups ++ ((name, or_else gid (provisioner.group_gid name s.prov)) ∷ []);
    },
  )

  unfoldable pub create_group_step : GroupAction → Exec P F
  create_group_step (GroupAction.create name gid) =
      provision provisioner backend (codes "create-group") (provisioner.create_group name gid)
      >> count
      >> record_created name gid
      >> push_log (created_group name gid)
  create_group_step _ = done

  -- Phases 2 and 3
  unfoldable pub action_phase : Action → Text
  action_phase (Action.create acct) = codes "create"
  action_phase (Action.update account changes) = codes "update"
  action_phase (Action.delete name) = codes "delete"

  unfoldable pub action_effect : Action → Effect ProvisionError P
  action_effect (Action.create acct) =
      and_then (provisioner.create acct) (provisioner.apply_sudoers acct)
  action_effect (Action.update account changes) =
      and_then (provisioner.update account changes) (provisioner.apply_sudoers account)
  action_effect (Action.delete name) =
      and_then (provisioner.remove_sudoers name) (provisioner.delete name)

  unfoldable pub account_step : Action → Exec P F
  unfolding action_phase action_effect
  account_step action =
      provision provisioner backend (action_phase action) (action_effect action)
      >> count
      >> push_log (account_action (action_phase action) action)

  -- Phase 3b
  unfoldable pub revoke_one : Text → ManagedFileGrant → Effect FileAccessError F
  revoke_one account grant = backend.revoke (user account) (resolved_from_managed grant)

  unfoldable pub revoke_one_deleted : ℕ → ManagedFileGrant → Effect FileAccessError F
  revoke_one_deleted id grant = backend.revoke (uid id) (resolved_from_managed grant)

  unfoldable pub materialize_account : ResolvedAccount → Map ManagedAccount → Exec P F
  materialize_account acct managed_now =
      for_each (λ removed. access provisioner backend (revoke_one acct.name removed))
        (removed_grants acct.name acct.file_grants managed_now)
      >> (if is_empty acct.file_grants
          then done
          else (access provisioner backend (backend.materialize (user acct.name) acct.file_grants)
              >> push_log (materialized (length acct.file_grants) acct.name)))

  unfoldable pub file_access_step : Map ManagedAccount → Action → Exec P F
  file_access_step managed_now (Action.create a) = materialize_account a managed_now
  file_access_step managed_now (Action.update account changes) =
      materialize_account account managed_now
  file_access_step managed_now (Action.delete name) = done

  -- The account is gone: its recorded UID names the entry.
  abbrev pub revoke_gone :
      Text → Option ManagedAccount → ManagedFileGrant → Effect FileAccessError F
  revoke_gone name none removed = revoke_one name removed
  revoke_gone name (some m) removed = revoke_one_deleted m.uid removed

  unfoldable pub revoke_deleted_step : Map ManagedAccount → Action → Exec P F
  unfolding revoke_one revoke_one_deleted
  revoke_deleted_step managed_now (Action.delete name) =
      for_each
        (λ removed.
          access provisioner backend (revoke_gone name (Map.get name managed_now) removed))
        (removed_grants name [] managed_now)
  revoke_deleted_step managed_now _ = done

  -- Phase 3c
  unfoldable pub revoke_one_group : Text → ManagedFileGrant → Effect FileAccessError F
  revoke_one_group name grant = backend.revoke (group name) (resolved_from_managed grant)

  unfoldable pub revoke_group_grants : Text → List ManagedFileGrant → Exec P F
  unfolding revoke_one_group
  revoke_group_grants name removed =
      for_each (λ r. access provisioner backend (revoke_one_group name r)) removed

  unfoldable pub capture_baseline : SystemInspector P → Text → Exec P F
  capture_baseline inspector name s =
      let gid = live_gid (inspector.group s.prov name) in
      let baseline : GroupBaseline = record {
        gid = gid;
        members = inspector.group_members s.prov name;
      } in
      (
        ok tt,
        record s {
          adopt_baselines = Map.insert name baseline s.adopt_baselines;
          log = s.log ++ (adopted_group name gid ∷ []);
        },
      )

  unfoldable pub group_access : ResolvedGroup → Text → Map ManagedGroup → Exec P F
  group_access g name managed =
      if is_empty g.file_grants
      then revoke_group_grants name (removed_group_grants name [] managed)
      else (access provisioner backend (backend.materialize (group name) g.file_grants)
          >> revoke_group_grants name (removed_group_grants name g.file_grants managed)
          >> push_log (group_materialized (length g.file_grants) name))

  unfoldable pub add_member : Text → List Text → Text → Exec P F
  add_member name current m =
      if has_name current m
      then done
      else (provision provisioner backend (codes "group-member")
            (provisioner.add_group_member name m)
          >> count)

  unfoldable pub remove_member : Text → List Text → Text → Exec P F
  remove_member name wanted m =
      if has_name wanted m
      then done
      else (provision provisioner backend (codes "group-member")
            (provisioner.remove_group_member name m)
          >> count)

  unfoldable pub sync_members : Text → List Text → List Text → Exec P F
  unfolding add_member remove_member
  sync_members name current wanted =
      for_each (add_member name current) wanted >> for_each (remove_member name wanted) current

  abbrev pub capture_if : Bool → SystemInspector P → Text → Exec P F
  capture_if true inspector name = capture_baseline inspector name
  capture_if false inspector name = done

  unfoldable pub grant_group :
      SystemInspector P → Map ManagedGroup → Bool → Text → Option ResolvedGroup → Exec P F
  unfolding capture_baseline group_access sync_members
  grant_group inspector managed is_adopt name none = fail_corrupt_plan provisioner backend name
  grant_group inspector managed is_adopt name (some g) =
      capture_if (is_adopt && not (Map.contains_key name managed)) inspector name
      >> provision provisioner backend (codes "group-sudoers") (provisioner.apply_group_sudoers g)
      >> group_access g name managed
      >> sync_members name (members_added_of name managed) g.members
      >> count
      >> push_log (group_grants name)

  unfoldable pub strip_group : Map ManagedGroup → LogLine → Text → Exec P F
  unfolding revoke_group_grants remove_member
  strip_group managed line name =
      provision provisioner backend (codes "group-sudoers") (provisioner.remove_group_sudoers name)
      >> revoke_group_grants name (removed_group_grants name [] managed)
      >> for_each (remove_member name []) (members_added_of name managed)
      >> push_log line

  unfoldable pub group_grant_step :
      SystemInspector P → List ResolvedGroup → Map ManagedGroup → GroupAction → Exec P F
  unfolding grant_group strip_group
  group_grant_step inspector groups managed (GroupAction.create name gid) =
      grant_group inspector managed false name (resolved_group_by_name groups name)
  group_grant_step inspector groups managed (GroupAction.adopt name) =
      grant_group inspector managed true name (resolved_group_by_name groups name)
  group_grant_step inspector groups managed (GroupAction.update name changes) =
      grant_group inspector managed false name (resolved_group_by_name groups name)
  group_grant_step inspector groups managed (GroupAction.release name) =
      strip_group managed (group_release name) name
  group_grant_step inspector groups managed (GroupAction.delete name) =
      strip_group managed (group_teardown name) name

  -- Phase 4
  unfoldable pub delete_group_step : GroupAction → Exec P F
  delete_group_step (GroupAction.delete name) =
      provision provisioner backend (codes "delete-group") (provisioner.delete_group name)
      >> count
      >> push_log (deleted_group name)
  delete_group_step _ = done
