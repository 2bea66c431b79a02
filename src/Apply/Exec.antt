-- ===== src/Apply/Exec.antt =====
-- The outcomes of an apply run and its two rollbacks (src/apply.rs), over the states of the two
-- seams.
use census.Prelude.{[], ◌∷◌, ◌++◌, ◌+◌, Text, List, Option, ℕ, Result, ok, err}
use census.Trust.{TrustDecision, TrustError}
use census.Lockout.{LockoutError}
use census.Plan.{GroupPlanError, Action}
use census.Declaration.{DeclarationError}
use census.Provision.{ProvisionError, Provisioner}
use census.FileAccess.{FileAccessError, FileAccessBackend, Effect}
use census.State.{GroupBaseline}
use census.Model.{SudoCommand}
use census.Apply.Reconcile.{Warning}
use census.Prelude.Map.{Map}

-- What a failed restore says; the source keeps the message.
pub data RestoreError : Type 0 where
  provisioner_restore : ProvisionError → RestoreError
  file_access_restore : FileAccessError → RestoreError

pub data RollbackOutcome : Type 0 where
  restored : RollbackOutcome
  failed : RestoreError → RollbackOutcome

pub data ApplyError : Type 0 where
  not_trusted : ApplyError
  trust_error : TrustError → ApplyError
  lockout_error : LockoutError → ApplyError
  phase : Text → ProvisionError → RollbackOutcome → ApplyError
  registry_error : Text → ApplyError
  resolve_error : Text → ApplyError
  group_plan : GroupPlanError → ApplyError
  declaration_error : DeclarationError → ApplyError
  session_registry : Text → ApplyError
  file_access : FileAccessError → ApplyError
  corrupt_plan : Text → RollbackOutcome → ApplyError

-- A right that an account with a live session keeps.
pub data Retained : Type 0 where
  sudo_role : Text → Retained
  sudo_command : SudoCommand → Retained
  file_grant : Text → Retained

-- The lines of the log, which the source prints with `format!`.
pub data LogLine : Type 0 where
  reason : TrustDecision → LogLine
  resolve_warning : Text → LogLine
  reconcile_warning : Warning → LogLine
  deferred_delete : Text → ℕ → Text → LogLine
  retains_revoked : Text → List Retained → LogLine
  deferred_group : Text → Text → LogLine
  risk_acknowledged : LogLine
  empty_plan : LogLine
  created_group : Text → Option ℕ → LogLine
  account_action : Text → Action → LogLine
  materialized : ℕ → Text → LogLine
  adopted_group : Text → Option ℕ → LogLine
  group_materialized : ℕ → Text → LogLine
  group_grants : Text → LogLine
  group_release : Text → LogLine
  group_teardown : Text → LogLine
  deleted_group : Text → LogLine
  all_succeeded : LogLine

-- The states of the seams, and the run's own variables.
pub record RunState (P F : Type 0) : Type 0 where
  pub prov : P
  pub files : F
  pub mutations : ℕ
  pub log : List LogLine
  pub created_groups : List (Text × Option ℕ)
  pub adopt_baselines : Map GroupBaseline

abbrev pub Exec : Type 0 → Type 0 → Type 0
Exec P F = RunState P F → Result ApplyError (Unit {0}) × RunState P F

module _ {P F : Type 0} where
  abbrev pub done : Exec P F
  done s = (ok tt, s)

  abbrev pub after :
      Result ApplyError (Unit {0})
      → RunState P F
      → Exec P F
      → Result ApplyError (Unit {0}) × RunState P F
  after (ok u) s k = k s
  after (err e) s k = (err e, s)

  -- An early return ends the run.
  infixl 5 ◌>>◌
  abbrev pub ◌>>◌ : Exec P F → Exec P F → Exec P F
  (m >> k) s = after (m s).0 (m s).1 k

  unfoldable pub for_each : {A : Type 0} → (A → Exec P F) → List A → Exec P F
  for_each f [] = done
  for_each f (x ∷ xs) = f x >> for_each f xs

  abbrev pub push_log : LogLine → Exec P F
  push_log line s = (ok tt, record s { log = s.log ++ (line ∷ []) })

  -- `mutations += 1`
  abbrev pub count : Exec P F
  count s = (ok tt, record s { mutations = 1 + s.mutations })

-- `create(..).and_then(|()| ..)`
abbrev pub then_if_ok :
    {E S : Type 0} → Result E (Unit {0}) → S → Effect E S → Result E (Unit {0}) × S
then_if_ok (ok u) p k = k p
then_if_ok (err e) p k = (err e, p)

abbrev pub and_then : {E S : Type 0} → Effect E S → Effect E S → Effect E S
and_then m k p = then_if_ok (m p).0 (m p).1 k

abbrev pub rollback_outcome :
    Result ProvisionError (Unit {0}) → Result FileAccessError (Unit {0}) → RollbackOutcome
rollback_outcome (ok u) (ok v) = restored
rollback_outcome (err e) acl = failed (provisioner_restore e)
rollback_outcome (ok u) (err e) = failed (file_access_restore e)

module _ {P F : Type 0} (provisioner : Provisioner P) (backend : FileAccessBackend F) where
  -- Both seams are restored, whatever the first restore says.
  abbrev pub restore_both : RunState P F → RunState P F
  restore_both s = record s {
    prov = (provisioner.restore s.prov).1;
    files = (backend.restore s.files).1;
  }

  abbrev pub abort_with_rollback : RunState P F → RollbackOutcome
  abort_with_rollback s =
      rollback_outcome (provisioner.restore s.prov).0 (backend.restore s.files).0

  unfoldable pub phase_failure : Text → ProvisionError → Exec P F
  phase_failure name source s = (err (phase name source (abort_with_rollback s)), restore_both s)

  unfoldable pub phase_failure_file_access : FileAccessError → Exec P F
  phase_failure_file_access source s = (err (file_access source), restore_both s)

  unfoldable pub fail_corrupt_plan : Text → Exec P F
  fail_corrupt_plan group s = (err (corrupt_plan group (abort_with_rollback s)), restore_both s)

  abbrev pub or_phase_failure : Text → Result ProvisionError (Unit {0}) → Exec P F
  or_phase_failure name (ok u) = done
  or_phase_failure name (err source) = phase_failure name source

  -- An operation of the provisioner: its error ends the run with a rollback.
  unfoldable pub provision : Text → Effect ProvisionError P → Exec P F
  unfolding phase_failure
  provision name e s = let r = e s.prov in or_phase_failure name r.0 (record s { prov = r.1 })

  abbrev pub or_phase_failure_file_access : Result FileAccessError (Unit {0}) → Exec P F
  or_phase_failure_file_access (ok u) = done
  or_phase_failure_file_access (err source) = phase_failure_file_access source

  unfoldable pub access : Effect FileAccessError F → Exec P F
  unfolding phase_failure_file_access
  access e s = let r = e s.files in or_phase_failure_file_access r.0 (record s { files = r.1 })
