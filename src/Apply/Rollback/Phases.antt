-- ===== src/Apply/Rollback/Phases.antt =====
-- Phases 1 to 3b and 4 of src/apply.rs keep the state recoverable or end with a rollback.
use census.Prelude.Map
use census.Prelude.{
  refl, none, is_empty, some, if◌then◌else◌, ◌≡◌, Option, [], ◌∷◌, codes, Text, List,
}
use census.Apply.Exec.{done, Exec, access, for_each}
use census.Apply.Rollback.Setup.{
  access-Within, provision-Within, provision_elsewhere, Saved, SafePhase, chain, each,
}
use census.Apply.Rollback.Host.{Local, Touches-nothing, and_then-Local}
use census.State.{ManagedAccount, ManagedFileGrant}
use census.Apply.Phases.{
  revoke_gone, revoke_one_deleted, revoke_deleted_step, file_access_step, revoke_one,
  materialize_account, delete_group_step, create_group_step, action_effect, account_step,
}
use census.Apply.Touched.{
  revoked_by, managed_paths, grant_paths, fragment_path, resolved_from_managed,
}
use census.Plan.{GroupAction, Action}
use census.FileAccess.{uid, user, FileAccessError, Principal, Effect}
use census.Apply.Reconcile.{action_name}
use census.Model.{ResolvedAccount}
use census.Apply.Rollback.Covered.{Within-map, Within}
use census.Prelude.Map.{Map}
use census.Apply.Accounts.{removed_grants}
use census.Catalog.Grants.{ResolvedFileGrant}

-- The account that an action leaves behind.
abbrev pub account_of : Action → Option ResolvedAccount
account_of (Action.create acct) = some acct
account_of (Action.update acct changes) = some acct
account_of (Action.delete name) = none

module _ {P F A C D : Type 0} (c : Saved P F A C D) where
  pub create_group-SafePhase :
      (ga : GroupAction) → SafePhase c (create_group_step c.provisioner c.backend ga)
  unfolding create_group_step
  create_group-SafePhase (GroupAction.create name gid) s h =
      chain c _ _
        (chain c _ _
          (chain c _ _
            (provision_elsewhere c (codes "create-group") (c.provisioner.create_group name gid)
              (c.lp.create_group_lem name gid))
            (λ s h. h))
          (λ s h. h))
        (λ s h. h) s h
  create_group-SafePhase (GroupAction.adopt name) s h = h
  create_group-SafePhase (GroupAction.release name) s h = h
  create_group-SafePhase (GroupAction.update name changes) s h = h
  create_group-SafePhase (GroupAction.delete name) s h = h

  pub delete_group-SafePhase :
      (ga : GroupAction) → SafePhase c (delete_group_step c.provisioner c.backend ga)
  unfolding delete_group_step
  delete_group-SafePhase (GroupAction.delete name) s h =
      chain c _ _
        (chain c _ _
          (provision_elsewhere c (codes "delete-group") (c.provisioner.delete_group name)
            (c.lp.delete_group_lem name))
          (λ s h. h))
        (λ s h. h) s h
  delete_group-SafePhase (GroupAction.create name gid) s h = h
  delete_group-SafePhase (GroupAction.adopt name) s h = h
  delete_group-SafePhase (GroupAction.release name) s h = h
  delete_group-SafePhase (GroupAction.update name changes) s h = h

  -- What an account action does to the system stays with the fragment of its account.
  action_effect-Local :
      (a : Action)
      → Local c.sp
          (fragment_path c.sudoers_dir (action_name a) ∷ [])
          (action_effect c.provisioner c.backend a)
  unfolding action_effect action_name
  action_effect-Local (Action.create acct) =
      and_then-Local c.sp _ (c.provisioner.create acct) (c.provisioner.apply_sudoers acct)
        (λ s. Touches-nothing c.sp _ s _ (c.lp.create_lem acct s)) (c.lp.apply_sudoers_lem acct)
  action_effect-Local (Action.update account changes) =
      and_then-Local c.sp _ (c.provisioner.update account changes)
        (c.provisioner.apply_sudoers account)
        (λ s. Touches-nothing c.sp _ s _ (c.lp.update_lem account changes s))
        (c.lp.apply_sudoers_lem account)
  action_effect-Local (Action.delete name) =
      and_then-Local c.sp _ (c.provisioner.remove_sudoers name) (c.provisioner.delete name)
        (c.lp.remove_sudoers_lem name) (λ s. Touches-nothing c.sp _ s _ (c.lp.delete_lem name s))

  pub account-SafePhase :
      (a : Action)
      → Within c.sp (fragment_path c.sudoers_dir (action_name a) ∷ []) c.fragments
      → SafePhase c (account_step c.provisioner c.backend a)
  unfolding account_step
  account-SafePhase a i =
      chain c _ _
        (chain c _ _
          (provision-Within c _ _ (action_effect c.provisioner c.backend a) (action_effect-Local a)
            i)
          (λ s h. h))
        (λ s h. h)

  -- Revoking recorded grants whose paths are saved.
  pub revoke_each-SafePhase :
      (f : ManagedFileGrant → Effect FileAccessError F) (removed : List ManagedFileGrant)
      → ((r : ManagedFileGrant) → Local c.sf (r.path ∷ []) (f r))
      → Within c.sf (managed_paths removed) c.paths
      → SafePhase c (for_each (λ r. access c.provisioner c.backend (f r)) removed)
  revoke_each-SafePhase f removed l i = each c _ removed (λ r j.
      access-Within c (r.path ∷ []) (f r) (l r)
        (λ q h. i q (Within-map c.sf (λ g. g.path) r removed j q h)))

  pub revoke-Local :
      (principal : Principal) (r : ManagedFileGrant)
      → Local c.sf (r.path ∷ []) (c.backend.revoke principal (resolved_from_managed r))
  unfolding resolved_from_managed
  revoke-Local principal r = c.lf.revoke_lem principal (resolved_from_managed r)

  -- A branch that is skipped on an empty list.
  if_empty-SafePhase :
      {B : Type 0} (l : List B) (m : Exec P F)
      → SafePhase c m
      → SafePhase c (if is_empty l then done else m)
  if_empty-SafePhase [] m k s h = h
  if_empty-SafePhase (x ∷ l) m k s h = k s h

  -- Materializing grants whose paths are saved.
  pub materialize-Within :
      (principal : Principal) (grants : List ResolvedFileGrant)
      → Within c.sf (grant_paths grants) c.paths
      → SafePhase c (access c.provisioner c.backend (c.backend.materialize principal grants))
  materialize-Within principal grants i =
      access-Within c (grant_paths grants) (c.backend.materialize principal grants)
        (c.lf.materialize_lem principal grants) i

  materialize_account-SafePhase :
      (acct : ResolvedAccount) (managed : Map ManagedAccount)
      → Within c.sf (grant_paths acct.file_grants) c.paths
      → Within c.sf (managed_paths (removed_grants acct.name acct.file_grants managed)) c.paths
      → SafePhase c (materialize_account c.provisioner c.backend acct managed)
  unfolding materialize_account revoke_one
  materialize_account-SafePhase acct managed g r =
      chain c _ _ (revoke_each-SafePhase _ _ (revoke-Local (user acct.name)) r) (
        if_empty-SafePhase acct.file_grants _
          (chain c _ _ (materialize-Within (user acct.name) acct.file_grants g) (λ s h. h)))

  -- The grants of an account action, and what it revokes, are saved.
  pub record ActionSaved (managed : Map ManagedAccount) (a : Action) : Type 0 where
    pub granted_saved :
        (acct : ResolvedAccount)
        → account_of a ≡ some acct
        → Within c.sf (grant_paths acct.file_grants) c.paths
    pub revoked_saved : Within c.sf (managed_paths (revoked_by managed a)) c.paths

  pub file_access-SafePhase :
      (managed : Map ManagedAccount) (a : Action)
      → ActionSaved managed a
      → SafePhase c (file_access_step c.provisioner c.backend managed a)
  unfolding file_access_step revoked_by
  file_access-SafePhase managed (Action.create acct) k =
      materialize_account-SafePhase acct managed (k.granted_saved acct refl) k.revoked_saved
  file_access-SafePhase managed (Action.update acct changes) k =
      materialize_account-SafePhase acct managed (k.granted_saved acct refl) k.revoked_saved
  file_access-SafePhase managed (Action.delete name) k = λ s h. h

  revoke_gone-Local :
      (name : Text) (o : Option ManagedAccount) (r : ManagedFileGrant)
      → Local c.sf (r.path ∷ []) (revoke_gone c.provisioner c.backend name o r)
  unfolding revoke_one revoke_one_deleted
  revoke_gone-Local name none r = revoke-Local (user name) r
  revoke_gone-Local name (some m) r = revoke-Local (uid m.uid) r

  pub revoke_deleted-SafePhase :
      (managed : Map ManagedAccount) (a : Action)
      → ActionSaved managed a
      → SafePhase c (revoke_deleted_step c.provisioner c.backend managed a)
  unfolding revoke_deleted_step revoked_by
  revoke_deleted-SafePhase managed (Action.delete name) k =
      revoke_each-SafePhase _ (removed_grants name [] managed)
        (revoke_gone-Local name (Map.get name managed)) k.revoked_saved
  revoke_deleted-SafePhase managed (Action.create acct) k = λ s h. h
  revoke_deleted-SafePhase managed (Action.update acct changes) k = λ s h. h
