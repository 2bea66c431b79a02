-- ===== src/Apply/Schedule/Phases.antt =====
-- The phases of src/apply.rs after the snapshots do what the schedule says, operation by operation,
-- and end where it stops.
use census.Prelude.Map
use census.Prelude.{
  none, some, length, ◌≡◌, ◌∷◌, is_empty, [], Option, if◌then◌else◌, Text, List, ok, refl, ◌++◌,
  codes,
}
use census.Apply.Exec.{for_each, materialized, push_log, access, done, RunState, Exec, ◌>>◌}
use census.Apply.Schedule.{
  gone_principal, materialization, revocations, group_deletion, group_creation, deleted_access,
  account_ops, account_access, perform_all, perform, Op,
}
use census.Apply.Schedule.Refines.{
  for_each-Refines, access-Refines, quiet-Refines, one-SystemOps, and_then-SystemOps,
  provision-Refines, SystemOps, Alike, >>-Refines, Refines,
}
use census.Provision.{Provisioner}
use census.FileAccess.{FileAccessError, user, Effect, Principal, FileAccessBackend}
use census.Catalog.Grants.{ResolvedFileGrant}
use census.Apply.Phases.{
  revoke_gone, action_phase, revoke_one_deleted, revoke_one, revoke_deleted_step,
  materialize_account, file_access_step, delete_group_step, create_group_step, action_effect,
  account_step,
}
use census.Plan.{GroupAction, Action}
use census.Model.{ResolvedAccount}
use census.State.{ManagedAccount, ManagedFileGrant}
use census.Prelude.Map.{Map}
use census.Apply.Accounts.{removed_grants}
use census.Apply.Touched.{resolved_from_managed}

module _ {P F : Type 0} (provisioner : Provisioner P) (backend : FileAccessBackend F) where
  abbrev pub Does : Exec P F → List Op → Type 0
  Does m ops = Refines provisioner backend m ops

  -- One after the other.
  pub then_do :
      (m k : Exec P F) (xs ys : List Op) → Does m xs → Does k ys → Does (m >> k) (xs ++ ys)
  then_do m k xs ys = >>-Refines provisioner backend m k xs ys

  -- A step, then a step that only writes something down.
  pub quietly :
      (m k : Exec P F) (ops : List Op)
      → Does m ops
      → ((s : RunState P F) → Alike provisioner backend (k s).0 (k s).1 (ok tt, (s.prov, s.files)))
      → Does (m >> k) ops
  quietly m k ops = quiet-Refines provisioner backend m ops k

  pub nothing : Does done []
  unfolding perform_all
  nothing s = refl

  pub create_group-Does :
      (ga : GroupAction) → Does (create_group_step provisioner backend ga) (group_creation ga)
  unfolding create_group_step group_creation perform
  create_group-Does (GroupAction.create name gid) s =
      quietly _ _ _
        (quietly _ _ _
          (quietly _ _ _
            (provision-Refines provisioner backend (codes "create-group")
              (provisioner.create_group name gid) _
              (one-SystemOps provisioner backend (provisioner.create_group name gid)
                (Op.create_group name gid) (λ p f. refl)))
            (λ s. refl))
          (λ s. refl))
        (λ s. refl) s
  create_group-Does (GroupAction.adopt name) s = nothing s
  create_group-Does (GroupAction.release name) s = nothing s
  create_group-Does (GroupAction.update name changes) s = nothing s
  create_group-Does (GroupAction.delete name) s = nothing s

  pub delete_group-Does :
      (ga : GroupAction) → Does (delete_group_step provisioner backend ga) (group_deletion ga)
  unfolding delete_group_step group_deletion perform
  delete_group-Does (GroupAction.delete name) s =
      quietly _ _ _
        (quietly _ _ _
          (provision-Refines provisioner backend (codes "delete-group")
            (provisioner.delete_group name) _
            (one-SystemOps provisioner backend (provisioner.delete_group name)
              (Op.delete_group name) (λ p f. refl)))
          (λ s. refl))
        (λ s. refl) s
  delete_group-Does (GroupAction.create name gid) s = nothing s
  delete_group-Does (GroupAction.adopt name) s = nothing s
  delete_group-Does (GroupAction.release name) s = nothing s
  delete_group-Does (GroupAction.update name changes) s = nothing s

  action-SystemOps :
      (a : Action)
      → SystemOps provisioner backend (action_effect provisioner backend a) (account_ops a)
  unfolding action_effect account_ops perform
  action-SystemOps (Action.create acct) =
      and_then-SystemOps provisioner backend (provisioner.create acct)
        (provisioner.apply_sudoers acct) _ _ (λ p f. refl) (λ p f. refl)
  action-SystemOps (Action.update acct changes) =
      and_then-SystemOps provisioner backend (provisioner.update acct changes)
        (provisioner.apply_sudoers acct) _ _ (λ p f. refl) (λ p f. refl)
  action-SystemOps (Action.delete name) =
      and_then-SystemOps provisioner backend (provisioner.remove_sudoers name)
        (provisioner.delete name) _ _ (λ p f. refl) (λ p f. refl)

  pub account-Does : (a : Action) → Does (account_step provisioner backend a) (account_ops a)
  unfolding account_step
  account-Does a =
      quietly _ _ _
        (quietly _ _ _
          (provision-Refines provisioner backend (action_phase provisioner backend a)
            (action_effect provisioner backend a) (account_ops a) (action-SystemOps a))
          (λ s. refl))
        (λ s. refl)

  pub revoke_each-Does :
      (principal : Principal) (f : ManagedFileGrant → Effect FileAccessError F)
      (removed : List ManagedFileGrant)
      → ((r : ManagedFileGrant) → f r ≡ backend.revoke principal (resolved_from_managed r))
      → Does
          (for_each (λ r. access provisioner backend (f r)) removed)
          (revocations principal removed)
  unfolding perform
  revoke_each-Does principal f removed e = for_each-Refines provisioner backend _ _ removed (λ r.
      access-Refines provisioner backend (f r) (Op.revoke principal (resolved_from_managed r))
        (λ p g. rw (e r) refl))

  pub materialize-Does :
      (principal : Principal) (grants : List ResolvedFileGrant)
      → Does
          (access provisioner backend (backend.materialize principal grants))
          (Op.materialize principal grants ∷ [])
  unfolding perform
  materialize-Does principal grants =
      access-Refines provisioner backend (backend.materialize principal grants) _ (λ p f. refl)

  materialize_if-Does :
      (name : Text) (grants : List ResolvedFileGrant)
      → Does
          (if is_empty grants
            then done
            else (access provisioner backend (backend.materialize (user name) grants)
                >> push_log (materialized (length grants) name)))
          (materialization (user name) grants)
  materialize_if-Does name [] s = nothing s
  materialize_if-Does name (g ∷ grants) s =
      quietly _ _ _ (materialize-Does (user name) (g ∷ grants)) (λ s. refl) s

  materialize_account-Does :
      (acct : ResolvedAccount) (managed : Map ManagedAccount)
      → Does (materialize_account provisioner backend acct managed) (
          revocations (user acct.name) (removed_grants acct.name acct.file_grants managed)
          ++ materialization (user acct.name) acct.file_grants)
  unfolding materialize_account revoke_one
  materialize_account-Does acct managed =
      then_do _ _ _ _ (revoke_each-Does (user acct.name) _ _ (λ r. refl))
        (materialize_if-Does acct.name acct.file_grants)

  pub file_access-Does :
      (managed : Map ManagedAccount) (a : Action)
      → Does (file_access_step provisioner backend managed a) (account_access managed a)
  unfolding file_access_step account_access
  file_access-Does managed (Action.create acct) = materialize_account-Does acct managed
  file_access-Does managed (Action.update acct changes) = materialize_account-Does acct managed
  file_access-Does managed (Action.delete name) = nothing

  revoke_gone-revoke :
      (name : Text) (o : Option ManagedAccount) (r : ManagedFileGrant)
      → revoke_gone provisioner backend name o r
        ≡ backend.revoke (gone_principal name o) (resolved_from_managed r)
  unfolding revoke_one revoke_one_deleted
  revoke_gone-revoke name none r = refl
  revoke_gone-revoke name (some m) r = refl

  pub revoke_deleted-Does :
      (managed : Map ManagedAccount) (a : Action)
      → Does (revoke_deleted_step provisioner backend managed a) (deleted_access managed a)
  unfolding revoke_deleted_step deleted_access
  revoke_deleted-Does managed (Action.delete name) =
      revoke_each-Does _ _ (removed_grants name [] managed)
        (revoke_gone-revoke name (Map.get name managed))
  revoke_deleted-Does managed (Action.create acct) = nothing
  revoke_deleted-Does managed (Action.update acct changes) = nothing
