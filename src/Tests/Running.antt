-- ===== src/Tests/Running.antt =====
-- Apply runs of src/apply.rs on the small host: Bob is to be created and Carol deleted, and the
-- host's `userdel` fails.
use census.Prelude.Map
use census.Prelude.{
  inl, some, ap, Result, join, is_normal, segments, components, str_eq, ◌∷◌, none, ◌≡◌, codes, [],
  Text, ok, err, refl, path_eq, true, false,
}
use census.Tests.Host.{
  path_eq-respects, acl_tool-LawfulBackend, small_tools-LawfulProvisioner, accesses, provisioning,
  Store, small_tools, acl_tool,
}
use census.Tests.Declaring.{host}
use census.Tests.Trusting.{stand_in}
use census.Apply.Prepare.{Prepared, prepare, live_or_refuse, check_routes, ApplyInputs}
use census.Apply.Run.{
  ApplyReport, start, mutate, file_access_paths, snapshot_files, track_all, sudoers_paths, execute,
  nothing_to_do, Outcome, run,
}
use census.Apply.Exec.{
  access, RunState, phase_failure, provision, for_each, restored, phase, ApplyError,
}
use census.Prelude.Map.{Map}
use census.Model.{ResolvedAccount}
use census.Inspect.{SystemInspector}
use census.State.{ManagedAccount}
use census.Tests.Fixtures.{etc_app_record, etc_app, carol_record, bob}
use census.Sessions.{matches, no_sessions}
use census.Provision.{command_failed}
use census.Trust.{trusted, standalone, mode_of, verify_trust}
use census.Declaration.Gather.{
  check_names, require_groups, require_composed, pin_declared, required_groups,
}
use census.Plan.Groups.{
  deletes_of, check_drifts, creates_of, diff_groups, collect_owners, collect_live,
  diff_groups_via_inspector,
}
use census.Plan.Accounts.{is_declared, delete_actions, target_action, target_actions, diff}
use census.Apply.Reconcile.{
  untouched_login_shells, action_name, fold_required, retain_groups, deferred_group_names,
  reconcile_live_sessions,
}
use census.Lockout.{is_login_capable_shell, gate}
use census.Plan.{Action, is_destructive, plan_is_empty}
use census.Plan.Declared.{retire_actions, declared_actions, diff_resolved_groups}
use census.Apply.Touched.{
  fragment_path, group_paths_from, group_file_access_touched_paths, revoked_by, revoked_paths,
  target_paths, file_access_touched_paths, push_path, push_paths, touched_group_sudoers_paths,
  touched_sudoers_paths,
}
use census.Apply.Accounts.{dropped_grants, removed_grants}
use census.Apply.Phases.{
  revoke_deleted_step, materialize_account, file_access_step, action_phase, action_effect,
  account_step, create_group_step,
}
use census.Sudoers.{sudoers_filename}
use census.FileAccess.{acl_capabilities, shape_requires, choose, route_grants}
use census.Apply.Schedule.Refines.{Alike}
use census.Apply.Seams.{SameHost}
use census.Apply.Rollback.{claimed}
use census.Apply.Schedule.{schedule, perform_all}
use census.Apply.Schedule.Whole.{mutate-refines_schedule}
use census.Apply.Rollback.Unharmed.{run-unharmed}
use census.Apply.Admitted.{run-trusted}

abbrev blank : Store
blank = record {
  auth = 0;
  at = λ q. 0;
  tracked = [];
  saved_auth = 0;
  saved_at = λ q. 0;
  saved_paths = [];
}

abbrev sudoers_d : Text
sudoers_d = codes "/etc/sudoers.d"

abbrev bob_reader : ResolvedAccount
bob_reader = record bob { file_grants = etc_app ∷ [] }

abbrev carol_alone : Map ManagedAccount
carol_alone =
    (codes "carol", record carol_record { groups = []; file_grants = etc_app_record ∷ [] }) ∷ []

abbrev no_groups : SystemInspector Store
no_groups = record {
  group = λ s name. none;
  group_name_by_gid = λ s gid. none;
  group_members = λ s name. [];
}

abbrev errand : ApplyInputs Store
errand = record {
  declaration = record host { groups = [] };
  declaration_bytes = [];
  state = record { accounts = carol_alone; groups = [] };
  inspector = no_groups;
  trust = record { trust_fs = true; trust_anchor_path = []; persist_dir = [] };
  lockout = record { rescue_present = true; risk_acknowledged = false };
  sudoers_dir = sudoers_d;
  live = ok no_sessions;
  sessions_file = [];
  resolve = λ d. ok (bob_reader ∷ [], []);
  resolve_groups = λ d. ok ([], []);
}

abbrev outcome : Outcome Store Store
outcome = run stand_in (small_tools sudoers_d) acl_tool errand blank blank

abbrev userdel_failed : ApplyError
userdel_failed =
    phase (codes "delete") (command_failed (codes "userdel" ∷ []) (codes "1") []) restored

userdel_test : outcome.0 ≡ err userdel_failed
unfolding run verify_trust mode_of check_routes required_groups pin_declared require_composed
    require_groups check_names diff_groups_via_inspector collect_live collect_owners diff_groups
    creates_of check_drifts deletes_of diff target_actions target_action delete_actions is_declared
    live_or_refuse reconcile_live_sessions matches Map.get str_eq deferred_group_names retain_groups
    gate plan_is_empty fold_required diff_resolved_groups declared_actions retire_actions prepare
    nothing_to_do execute sudoers_paths touched_sudoers_paths touched_group_sudoers_paths push_paths
    push_path path_eq components segments is_normal track_all snapshot_files file_access_paths
    file_access_touched_paths target_paths revoked_paths revoked_by removed_grants dropped_grants
    group_file_access_touched_paths group_paths_from mutate for_each create_group_step account_step
    action_effect action_phase provision phase_failure fragment_path action_name sudoers_filename
    join route_grants choose shape_requires acl_capabilities is_destructive untouched_login_shells
    is_login_capable_shell
userdel_test = refl

userdel-failed : outcome ≡ (err userdel_failed, outcome.1)
userdel-failed = ap (λ r. (r, outcome.1)) userdel_test

userdel-claimed : claimed userdel_failed ≡ some restored
unfolding claimed
userdel-claimed = refl

run-unharmed_example : SameHost provisioning blank outcome.1.0 × SameHost accesses blank outcome.1.1
run-unharmed_example =
    run-unharmed stand_in provisioning accesses (small_tools sudoers_d) acl_tool errand
      (small_tools-LawfulProvisioner sudoers_d) acl_tool-LawfulBackend path_eq-respects
      path_eq-respects blank blank userdel_failed outcome.1.0 outcome.1.1 (refl, refl)
      userdel-failed (inl userdel-claimed)

abbrev errand_plan : Prepared
errand_plan = record {
  trust_mode = standalone;
  targets = bob_reader ∷ [];
  resolved_groups = [];
  required = [];
  plan = record {
    actions = Action.create bob_reader ∷ Action.delete (codes "carol") ∷ [];
    group_actions = [];
  };
  rgroup_actions = [];
  deferred = [];
  log = [];
}

abbrev mutated : Result ApplyError (Unit {0}) × RunState Store Store
mutated = mutate (small_tools sudoers_d) acl_tool errand errand_plan (start blank blank [])

mutate-refines_schedule_example :
    Alike
      (small_tools sudoers_d)
      acl_tool
      mutated.0
      mutated.1
      (perform_all (small_tools sudoers_d) acl_tool (schedule errand.state errand_plan) blank blank)
mutate-refines_schedule_example =
    mutate-refines_schedule (small_tools sudoers_d) acl_tool errand errand_plan
      (start blank blank [])

-- With nobody to delete, the run succeeds.
abbrev welcome : ApplyInputs Store
welcome = record errand { state = record { accounts = []; groups = [] } }

abbrev welcomed : Outcome Store Store
welcomed = run stand_in (small_tools sudoers_d) acl_tool welcome blank blank

abbrev no_report : ApplyReport
no_report = record {
  managed = [];
  managed_group_records = [];
  log = [];
  mutations = 0;
  registry_written = false;
  trust_mode = standalone;
  deferred_deletes = [];
}

abbrev report_of : Result ApplyError ApplyReport → ApplyReport
report_of (ok r) = r
report_of (err e) = no_report

welcome_test : welcomed.0 ≡ ok (report_of welcomed.0)
unfolding run verify_trust mode_of check_routes required_groups pin_declared require_composed
    require_groups check_names diff_groups_via_inspector collect_live collect_owners diff_groups
    creates_of check_drifts deletes_of diff target_actions target_action delete_actions is_declared
    live_or_refuse reconcile_live_sessions matches Map.get str_eq deferred_group_names retain_groups
    gate plan_is_empty fold_required diff_resolved_groups declared_actions retire_actions prepare
    nothing_to_do execute sudoers_paths touched_sudoers_paths touched_group_sudoers_paths push_paths
    push_path path_eq components segments is_normal track_all snapshot_files file_access_paths
    file_access_touched_paths target_paths revoked_paths revoked_by removed_grants dropped_grants
    group_file_access_touched_paths group_paths_from mutate for_each create_group_step account_step
    action_effect action_phase provision phase_failure fragment_path action_name sudoers_filename
    join route_grants choose shape_requires acl_capabilities is_destructive untouched_login_shells
    is_login_capable_shell file_access_step materialize_account access revoke_deleted_step
welcome_test = refl

run-trusted_example :
    verify_trust stand_in welcome.declaration welcome.declaration_bytes welcome.trust
    ≡ ok (trusted (report_of welcomed.0).trust_mode)
run-trusted_example =
    run-trusted stand_in (small_tools sudoers_d) acl_tool welcome blank blank (report_of welcomed.0)
      welcomed.1 (ap (λ r. (r, welcomed.1)) welcome_test)
