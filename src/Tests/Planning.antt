-- ===== src/Tests/Planning.antt =====
-- The plan, run on a small host.
use census.Prelude.Map
use census.Plan.Accounts.Actions.{diff-actions_iff, Justified}
use census.Prelude.{
  false, Text, Distinct, refl, err, cmp_text, ◌++◌, str_eq, none, map, Perm, All, ◌↔◌, true, some,
  ok, ◌≡◌, ◌∷◌, [], codes, List, In,
}
use census.Plan.Accounts.{
  role_eq, is_declared, delete_actions, target_action, target_actions, diff_fields, diff,
}
use census.Plan.Declared.{diff_resolved_groups}
use census.Plan.Groups.{
  collect_owners, collect_live, owner_of, deletes_of, check_drift, check_drifts, required_action,
  creates_of, diff_groups_via_inspector, diff_groups,
}
use census.Plan.Equality.{same_keys, str_set_equal, sudo_set_equal, file_grants_set_equal}
use census.Catalog.Paths.{path_at_or_under_iff, trim_slash, AtOrUnder, path_at_or_under}
use census.Plan.{gid_pin_conflict, GroupAction, Action, plan_is_empty}
use census.Model.{same_provenance, created, ResolvedGroup}
use census.Tests.Fixtures.{
  gid_owner, live_groups, inspector, etc_app, registry, ops, group_registry, dev, bob, targets,
  required, declared_group,
}
use census.Plan.Declared.Actions.{DeclaredJustified}
use census.Plan.Groups.Actions.{GroupJustified}
use census.Plan.Accounts.Sync.{diff-empty_iff, Declared, Recorded}
use census.Plan.Groups.Checks.{missing, IsSafe}
use census.Plan.Declared.Exact.{resolved_groups-actions_iff}
use census.Plan.Groups.Inspected.{diff_groups_via_inspector-ok_iff, via_inspector-actions_iff}
use census.Catalog.Grants.{
  has_glob_metachar, shape_of, union, absorb, merge_grant, union_into, rw_access,
  union_resolved_file_grants, ResolvedFileGrant,
}
use census.Catalog.Grants.Union.{union_resolved-grant_at, PathUnion, of_path, grant_at}
use census.Plan.Accounts.Order.{diff-DeletesLast, DeletesLast}

-- Alice is in sync, Bob is new, Carol goes.
plan_test : (diff targets registry).actions ≡ Action.create bob ∷ Action.delete (codes "carol") ∷ []
unfolding diff target_actions target_action diff_fields delete_actions is_declared Map.get str_eq
    role_eq str_set_equal sudo_set_equal file_grants_set_equal same_keys census.Prelude.sort
plan_test = refl

group_plan_test :
    diff_groups_via_inspector required group_registry inspector
    ≡ ok (GroupAction.create dev (some 700) ∷ GroupAction.delete (codes "old") ∷ [])
unfolding diff_groups_via_inspector diff_groups creates_of required_action check_drifts check_drift
    deletes_of collect_live collect_owners owner_of Map.get Map.insert Map.contains_key str_eq
    cmp_text same_provenance
group_plan_test = refl

pin_conflict_test :
    diff_groups_via_inspector ((dev, some 500) ∷ []) [] inspector
    ≡ err (gid_pin_conflict dev 500 ops)
unfolding diff_groups_via_inspector diff_groups creates_of required_action check_drifts check_drift
    deletes_of collect_live collect_owners owner_of Map.get Map.insert Map.contains_key str_eq
    cmp_text same_provenance
pin_conflict_test = refl

diff-actions_iff_example :
    In (Action.create bob) (diff targets registry).actions
    ↔ Justified targets registry (Action.create bob)
diff-actions_iff_example = diff-actions_iff targets registry (Action.create bob)

diff-empty_iff_example :
    (plan_is_empty (diff targets registry) ≡ true)
    ↔ (All (Recorded registry) targets × All (λ e. Declared targets e.0) registry)
diff-empty_iff_example = diff-empty_iff targets registry

diff-DeletesLast_example : DeletesLast (diff targets registry).actions
diff-DeletesLast_example = diff-DeletesLast targets registry

diff_groups_via_inspector-ok_iff_example :
    (diff_groups_via_inspector required group_registry inspector ≡ ok []) ↔ (
      IsSafe required group_registry live_groups gid_owner
      × ([] ≡ missing required live_groups ++ deletes_of required group_registry))
diff_groups_via_inspector-ok_iff_example =
    diff_groups_via_inspector-ok_iff required group_registry inspector []

via_inspector-actions_iff_example :
    In
      (GroupAction.delete (codes "old"))
      (GroupAction.create dev (some 700) ∷ GroupAction.delete (codes "old") ∷ [])
    ↔ GroupJustified required group_registry live_groups (GroupAction.delete (codes "old"))
via_inspector-actions_iff_example =
    via_inspector-actions_iff required group_registry inspector
      (GroupAction.create dev (some 700) ∷ GroupAction.delete (codes "old") ∷ []) group_plan_test
      (GroupAction.delete (codes "old"))

abbrev declared : List ResolvedGroup
declared = declared_group dev created (codes "alice" ∷ []) ∷ []

resolved_groups-actions_iff_example :
    In (GroupAction.release ops) (diff_resolved_groups declared group_registry)
    ↔ DeclaredJustified declared group_registry (GroupAction.release ops)
resolved_groups-actions_iff_example =
    resolved_groups-actions_iff declared group_registry (GroupAction.release ops)

path_at_or_under_iff_example :
    (path_at_or_under (codes "/etc/app/") (codes "/etc/app/x") ≡ true)
    ↔ AtOrUnder (trim_slash (codes "/etc/app/")) (codes "/etc/app/x")
path_at_or_under_iff_example = path_at_or_under_iff (codes "/etc/app/") (codes "/etc/app/x")

abbrev etc_app_write : ResolvedFileGrant
etc_app_write = record etc_app { access = rw_access; recursive = false }

abbrev twice : List ResolvedFileGrant
twice = etc_app ∷ etc_app_write ∷ []

union_test :
    union_resolved_file_grants twice ≡ record etc_app { access = rw_access; sources = [] } ∷ []
unfolding union_resolved_file_grants union_into merge_grant absorb union shape_of str_eq
    has_glob_metachar
union_test = refl

union_resolved-grant_at_example :
    Distinct (map (λ (g : ResolvedFileGrant). g.path) (union_resolved_file_grants twice))
    × ((p : Text) → PathUnion (of_path p twice) (grant_at p (union_resolved_file_grants twice)))
union_resolved-grant_at_example = union_resolved-grant_at twice
