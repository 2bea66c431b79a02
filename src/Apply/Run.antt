-- ===== src/Apply/Run.antt =====
-- `run` of src/apply.rs: the snapshots, the phases, and the report.
use census.Apply.Exec.{
  restored, empty_plan, phase, for_each, all_succeeded, Exec, RunState, ApplyError, LogLine, ◌>>◌,
}
use census.Apply.Prepare.{prepare, ApplyInputs, Prepared}
use census.Prelude.{
  not, ℕ, true, codes, is_empty, if◌then◌else◌, ◌++◌, ◌∷◌, ok, err, [], ◌&&◌, Text, Result, List,
  Bool,
}
use census.Provision.{ProvisionError, Provisioner}
use census.Trust.{TrustMode, TrustSource}
use census.FileAccess.{FileAccessError, FileAccessBackend}
use census.State.{ManagedGroup, ManagedAccount}
use census.Plan.{plan_is_empty}
use census.Prelude.Map.{Map}
use census.Apply.Accounts.{build_managed_set}
use census.Apply.Touched.{
  touched_group_sudoers_paths, file_access_touched_paths, group_file_access_touched_paths,
  touched_sudoers_paths, push_paths,
}
use census.Apply.Groups.{build_managed_groups}
use census.Apply.Phases.{
  delete_group_step, group_grant_step, revoke_deleted_step, file_access_step, account_step,
  create_group_step,
}
use census.Apply.Reconcile.{DeferredDelete}

pub record ApplyReport : Type 0 where
  pub managed : List ManagedAccount
  pub managed_group_records : Map ManagedGroup
  pub log : List LogLine
  pub mutations : ℕ
  pub registry_written : Bool
  pub trust_mode : TrustMode
  pub deferred_deletes : List DeferredDelete

-- All the paths whose file access the run can change.
unfoldable pub file_access_paths : {P : Type 0} → ApplyInputs P → Prepared → List Text
file_access_paths inputs prep =
    push_paths
      (group_file_access_touched_paths prep.rgroup_actions prep.resolved_groups inputs.state.groups)
      (file_access_touched_paths prep.plan.actions prep.targets inputs.state.accounts)

unfoldable pub sudoers_paths : {P : Type 0} → ApplyInputs P → Prepared → List Text
sudoers_paths inputs prep =
    touched_sudoers_paths prep.plan.actions inputs.sudoers_dir
    ++ touched_group_sudoers_paths prep.rgroup_actions inputs.sudoers_dir

module _ {P F : Type 0} (provisioner : Provisioner P) (backend : FileAccessBackend F) where
  unfoldable pub track_all : List Text → P → P
  track_all [] p = p
  track_all (path ∷ paths) p = track_all paths (provisioner.track_sudoers_backup path p)

  abbrev pub track : List Text → Exec P F
  track paths s = (ok tt, record s { prov = track_all paths s.prov })

  -- Nothing has been mutated: the error claims a rollback without one.
  abbrev pub snapshot_outcome : Result ProvisionError (Unit {0}) → Exec P F
  snapshot_outcome (ok u) s = (ok tt, s)
  snapshot_outcome (err e) s = (err (phase (codes "snapshot") e restored), s)

  abbrev pub snapshot_provisioner : Exec P F
  snapshot_provisioner s =
      let r = provisioner.snapshot s.prov in snapshot_outcome r.0 (record s { prov = r.1 })

  abbrev pub files_outcome : Result FileAccessError (Unit {0}) → Exec P F
  files_outcome (ok u) s = (ok tt, s)
  files_outcome (err e) s =
      (err (ApplyError.file_access e), record s { prov = (provisioner.restore s.prov).1 })

  unfoldable pub snapshot_files : List Text → Exec P F
  snapshot_files paths s =
      if is_empty paths
      then (ok tt, s)
      else (let r = backend.snapshot paths s.files in files_outcome r.0 (record s { files = r.1 }))

  -- The phases, in order.
  unfoldable pub mutate : ApplyInputs P → Prepared → Exec P F
  mutate inputs prep =
      for_each (create_group_step provisioner backend) prep.plan.group_actions
      >> for_each (account_step provisioner backend) prep.plan.actions
      >> for_each (file_access_step provisioner backend inputs.state.accounts) prep.plan.actions
      >> for_each (revoke_deleted_step provisioner backend inputs.state.accounts) prep.plan.actions
      >> for_each
          (group_grant_step provisioner backend inputs.inspector prep.resolved_groups
            inputs.state.groups)
          prep.rgroup_actions
      >> for_each (delete_group_step provisioner backend) prep.plan.group_actions

  unfoldable pub execute : ApplyInputs P → Prepared → Exec P F
  execute inputs prep =
      track (sudoers_paths inputs prep)
      >> snapshot_provisioner
      >> snapshot_files (file_access_paths inputs prep)
      >> mutate inputs prep

-- The report, from what the run recorded.
unfoldable pub report :
    {P F : Type 0} → ApplyInputs P → Prepared → LogLine → Bool → RunState P F → ApplyReport
report inputs prep line written s = record {
  managed =
      build_managed_set prep.targets inputs.declaration.version inputs.state.accounts prep.deferred;
  managed_group_records =
      build_managed_groups prep.required prep.resolved_groups inputs.state.groups s.created_groups
        s.adopt_baselines inputs.declaration.version (inputs.inspector.group s.prov);
  log = s.log ++ (line ∷ []);
  mutations = s.mutations;
  registry_written = written;
  trust_mode = prep.trust_mode;
  deferred_deletes = prep.deferred;
}

abbrev pub start : {P F : Type 0} → P → F → List LogLine → RunState P F
start p f log = record {
  prov = p;
  files = f;
  mutations = 0;
  log = log;
  created_groups = [];
  adopt_baselines = [];
}

-- Nothing to execute.
unfoldable pub nothing_to_do : Prepared → Bool
nothing_to_do prep = plan_is_empty prep.plan && is_empty prep.rgroup_actions

abbrev pub Outcome : Type 0 → Type 0 → Type 0
Outcome P F = Result ApplyError ApplyReport × (P × F)

abbrev pub conclude :
    {P F : Type 0}
    → ApplyInputs P
    → Prepared
    → Result ApplyError (Unit {0}) × RunState P F
    → Outcome P F
conclude inputs prep (ok u, s) = (ok (report inputs prep all_succeeded true s), (s.prov, s.files))
conclude inputs prep (err e, s) = (err e, (s.prov, s.files))

module _ {Key P F : Type 0} (sys : TrustSource Key) (provisioner : Provisioner P)
    (backend : FileAccessBackend F) where
  abbrev pub run_prepared : ApplyInputs P → P → F → Result ApplyError Prepared → Outcome P F
  run_prepared inputs p f (err e) = (err e, (p, f))
  run_prepared inputs p f (ok prep) =
      if nothing_to_do prep
      then (
        ok (report inputs prep empty_plan (not (is_empty prep.deferred)) (start p f prep.log)),
        (p, f),
      )
      else conclude inputs prep (execute provisioner backend inputs prep (start p f prep.log))

  unfoldable pub run : ApplyInputs P → P → F → Outcome P F
  run inputs p f = run_prepared inputs p f (prepare sys provisioner backend inputs p)
