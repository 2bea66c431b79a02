-- ===== src/Provision/ShadowUtils.antt =====
-- `ShadowUtilsProvisioner` of src/mutate.rs: the commands that it runs, on a system that the caller
-- gives, with the backup that it delegates to.
use census.Prelude.Map
use census.Sudoers.Fragment
use census.Prelude.{[], ◌∷◌, Text, List, ℕ, ok, err, Result, Option, none, some, codes}
use census.Model.{ResolvedAccount}
use census.State.{ManagedAccount}
use census.Provision.{
  sudoers, missing_managed_record, backup, ProvisionError, Provisioner, spawn_failed,
  command_failed,
}
use census.Provision.Argv.{
  build_gpasswd_del_argv, build_gpasswd_add_argv, build_delete_group_argv, build_create_group_argv,
  build_delete_argv, build_create_argv, build_update_argv,
}
use census.Sudoers.Fragment.{FragmentSystem, SudoersError}
use census.Prelude.Map.{Map}
use census.Sudoers.{build_group_sudoers_content, build_sudoers_content}

-- What `Command::output` gives: no process, success, or a status and the trimmed stderr.
pub data CommandOutput : Type 0 where
  no_process : Text → CommandOutput
  success : CommandOutput
  failure : Text → Text → CommandOutput

-- The system, over its state `S`; `gid_of` is `getent group`, parsed, and the backup is that of
-- src/backup.rs.
pub record ShadowSystem (S : Type 0) : Type 0 where
  pub output : List Text → S → CommandOutput × S
  pub gid_of : Text → S → Option ℕ
  pub fragments : FragmentSystem S
  pub add_file : Text → S → S
  pub snapshot : S → Result Text (Unit {0}) × S
  pub restore : S → Result Text (Unit {0}) × S

module _ {S : Type 0} (sys : ShadowSystem S) (managed : Map ManagedAccount)
    (sudoers_dir : Text) where
  abbrev pub Ran : Type 0
  Ran = Result ProvisionError (Unit {0}) × S

  abbrev pub outcome_of : List Text → CommandOutput × S → Ran
  outcome_of cmd (no_process reason, s) = (err (spawn_failed cmd reason), s)
  outcome_of cmd (success, s) = (ok tt, s)
  outcome_of cmd (failure status stderr, s) = (err (command_failed cmd status stderr), s)

  unfoldable pub run : List Text → S → Ran
  run [] s = (err (spawn_failed [] (codes "empty argv")), s)
  run (program ∷ args) s = outcome_of (program ∷ args) (sys.output (program ∷ args) s)

  abbrev pub next_command : Ran → (S → Ran) → Ran
  next_command (ok u, s) k = k s
  next_command (err e, s) k = (err e, s)

  unfoldable pub run_all : List (List Text) → S → Ran
  unfolding run
  run_all [] s = (ok tt, s)
  run_all (cmd ∷ cmds) s = next_command (run cmd s) (run_all cmds)

  abbrev pub run_built : Result ProvisionError (List (List Text)) → S → Ran
  run_built (ok cmds) s = run_all cmds s
  run_built (err e) s = (err e, s)

  abbrev pub update_from : ResolvedAccount → Option ManagedAccount → S → Ran
  update_from acct none s = (err (missing_managed_record acct.name), s)
  update_from acct (some current) s = run_built (build_update_argv acct current) s

  -- The message of a sudoers error, in its place.
  abbrev pub from_sudoers : (SudoersError → Text) → Result SudoersError (Unit {0}) × S → Ran
  from_sudoers message (ok u, s) = (ok tt, s)
  from_sudoers message (err e, s) = (err (sudoers (message e)), s)

  abbrev pub from_backup : Result Text (Unit {0}) × S → Ran
  from_backup (ok u, s) = (ok tt, s)
  from_backup (err e, s) = (err (backup e), s)

  -- No sudo right: the fragment must not exist.
  abbrev pub apply_fragment : Text → Option Text → S → Result SudoersError (Unit {0}) × S
  apply_fragment name none s = Fragment.remove_sudoers sys.fragments sudoers_dir name s
  apply_fragment name (some content) s =
      Fragment.write_sudoers sys.fragments sudoers_dir name content s

  abbrev pub apply_group_fragment : Text → Option Text → S → Result SudoersError (Unit {0}) × S
  apply_group_fragment name none s = Fragment.remove_group_sudoers sys.fragments sudoers_dir name s
  apply_group_fragment name (some content) s =
      Fragment.write_group_sudoers sys.fragments sudoers_dir name content s

  unfoldable pub shadow_utils : (SudoersError → Text) → Provisioner S
  unfolding run_all build_create_argv build_delete_argv build_create_group_argv
      build_delete_group_argv build_gpasswd_add_argv build_gpasswd_del_argv build_sudoers_content
      build_group_sudoers_content
  shadow_utils message = record {
    create = λ acct. run_all (build_create_argv acct);
    update = λ acct changes. update_from acct (Map.get acct.name managed);
    delete = λ name. run_all (build_delete_argv name);
    create_group = λ name gid. run_all (build_create_group_argv name gid);
    group_gid = sys.gid_of;
    delete_group = λ name. run_all (build_delete_group_argv name);
    apply_sudoers =
        λ acct s. from_sudoers message (apply_fragment acct.name (build_sudoers_content acct) s);
    remove_sudoers =
        λ name s. from_sudoers message (Fragment.remove_sudoers sys.fragments sudoers_dir name s);
    apply_group_sudoers = λ group s.
        from_sudoers message
          (apply_group_fragment group.name (build_group_sudoers_content group) s);
    remove_group_sudoers = λ group s.
        from_sudoers message (Fragment.remove_group_sudoers sys.fragments sudoers_dir group s);
    add_group_member = λ group member. run_all (build_gpasswd_add_argv group member);
    remove_group_member = λ group member. run_all (build_gpasswd_del_argv group member);
    track_sudoers_backup = sys.add_file;
    snapshot = λ s. from_backup (sys.snapshot s);
    restore = λ s. from_backup (sys.restore s);
  }
