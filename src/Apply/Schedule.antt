-- ===== src/Apply/Schedule.antt =====
-- What the phases of `run` (src/apply.rs) promise, without their error handling: a list of single
pub mod Refines
pub mod Phases
pub mod Whole
-- operations on the two seams, performed in order until one fails.
use census.Prelude.Map
use census.Prelude.{
  none, some, ℕ, [], ◌∷◌, if◌then◌else◌, Option, Text, List, ok, err, Result, ◌++◌,
}
use census.Apply.Touched.{resolved_from_managed, resolved_group_by_name}
use census.Plan.{Change, GroupAction, Action}
use census.Prelude.Map.{Map}
use census.FileAccess.{uid, user, group, Effect, FileAccessError, FileAccessBackend, Principal}
use census.Provision.{Provisioner, ProvisionError}
use census.State.{ManagedGroup, ManagedFileGrant, ManagedAccount, RegistryState}
use census.Model.{ResolvedAccount, ResolvedGroup}
use census.Apply.Prepare.{map_err, Prepared}
use census.Catalog.Grants.{ResolvedFileGrant}
use census.Apply.Phases.{has_name}
use census.Apply.Accounts.{removed_grants}
use census.Apply.Groups.{members_added_of, removed_group_grants}

-- One call of a seam; `no_group` stands for a group that was not resolved.
pub data Op : Type 0 where
  create_group : Text → Option ℕ → Op
  create : ResolvedAccount → Op
  update : ResolvedAccount → List Change → Op
  delete : Text → Op
  apply_sudoers : ResolvedAccount → Op
  remove_sudoers : Text → Op
  materialize : Principal → List ResolvedFileGrant → Op
  revoke : Principal → ResolvedFileGrant → Op
  apply_group_sudoers : ResolvedGroup → Op
  remove_group_sudoers : Text → Op
  add_member : Text → Text → Op
  remove_member : Text → Text → Op
  delete_group : Text → Op
  no_group : Text → Op

unfoldable pub concat_map : {A B : Type 0} → (A → List B) → List A → List B
concat_map f [] = []
concat_map f (x ∷ xs) = f x ++ concat_map f xs

unfoldable pub group_creation : GroupAction → List Op
group_creation (GroupAction.create name gid) = Op.create_group name gid ∷ []
group_creation _ = []

-- A fragment is written after its account is there, and goes before it does.
unfoldable pub account_ops : Action → List Op
account_ops (Action.create acct) = Op.create acct ∷ Op.apply_sudoers acct ∷ []
account_ops (Action.update acct changes) = Op.update acct changes ∷ Op.apply_sudoers acct ∷ []
account_ops (Action.delete name) = Op.remove_sudoers name ∷ Op.delete name ∷ []

abbrev pub revocations : Principal → List ManagedFileGrant → List Op
revocations principal removed =
    concat_map (λ r. Op.revoke principal (resolved_from_managed r) ∷ []) removed

abbrev pub materialization : Principal → List ResolvedFileGrant → List Op
materialization principal [] = []
materialization principal (g ∷ grants) = Op.materialize principal (g ∷ grants) ∷ []

-- An account that stays loses what it is no longer granted, then gets its grants.
unfoldable pub account_access : Map ManagedAccount → Action → List Op
account_access managed (Action.create acct) =
    revocations (user acct.name) (removed_grants acct.name acct.file_grants managed)
    ++ materialization (user acct.name) acct.file_grants
account_access managed (Action.update acct changes) =
    revocations (user acct.name) (removed_grants acct.name acct.file_grants managed)
    ++ materialization (user acct.name) acct.file_grants
account_access managed (Action.delete name) = []

-- The principal of a deleted account: its recorded UID.
abbrev pub gone_principal : Text → Option ManagedAccount → Principal
gone_principal name none = user name
gone_principal name (some m) = uid m.uid

unfoldable pub deleted_access : Map ManagedAccount → Action → List Op
deleted_access managed (Action.delete name) =
    revocations (gone_principal name (Map.get name managed)) (removed_grants name [] managed)
deleted_access managed _ = []

unfoldable pub joins : Text → List Text → List Text → List Op
joins name current wanted =
    concat_map (λ m. if has_name current m then [] else Op.add_member name m ∷ []) wanted

unfoldable pub leaves : Text → List Text → List Text → List Op
leaves name wanted current =
    concat_map (λ m. if has_name wanted m then [] else Op.remove_member name m ∷ []) current

unfoldable pub granted_ops : Map ManagedGroup → Text → Option ResolvedGroup → List Op
unfolding joins leaves
granted_ops managed name none = Op.no_group name ∷ []
granted_ops managed name (some g) =
    (Op.apply_group_sudoers g ∷ [])
    ++ ((materialization (group name) g.file_grants
          ++ revocations (group name) (removed_group_grants name g.file_grants managed))
        ++ (joins name (members_added_of name managed) g.members
            ++ leaves name g.members (members_added_of name managed)))

unfoldable pub stripped_ops : Map ManagedGroup → Text → List Op
unfolding leaves
stripped_ops managed name =
    (Op.remove_group_sudoers name ∷ [])
    ++ (revocations (group name) (removed_group_grants name [] managed)
        ++ leaves name [] (members_added_of name managed))

unfoldable pub group_ops : List ResolvedGroup → Map ManagedGroup → GroupAction → List Op
unfolding granted_ops stripped_ops
group_ops groups managed (GroupAction.create name gid) =
    granted_ops managed name (resolved_group_by_name groups name)
group_ops groups managed (GroupAction.adopt name) =
    granted_ops managed name (resolved_group_by_name groups name)
group_ops groups managed (GroupAction.update name changes) =
    granted_ops managed name (resolved_group_by_name groups name)
group_ops groups managed (GroupAction.release name) = stripped_ops managed name
group_ops groups managed (GroupAction.delete name) = stripped_ops managed name

unfoldable pub group_deletion : GroupAction → List Op
group_deletion (GroupAction.delete name) = Op.delete_group name ∷ []
group_deletion _ = []

-- Groups first, then accounts, then their access, then the access of deleted accounts, then the
-- groups' grants, and last the groups that go.
unfoldable pub schedule : RegistryState → Prepared → List Op
unfolding group_creation account_ops account_access deleted_access group_ops group_deletion
schedule registry prep =
    ((((concat_map group_creation prep.plan.group_actions
            ++ concat_map account_ops prep.plan.actions)
          ++ concat_map (account_access registry.accounts) prep.plan.actions)
        ++ concat_map (deleted_access registry.accounts) prep.plan.actions)
      ++ concat_map (group_ops prep.resolved_groups registry.groups) prep.rgroup_actions)
    ++ concat_map group_deletion prep.plan.group_actions

-- What stops the list.
pub data Fault : Type 0 where
  provision_fault : ProvisionError → Fault
  access_fault : FileAccessError → Fault
  missing_group : Text → Fault

module _ {P F : Type 0} (provisioner : Provisioner P) (backend : FileAccessBackend F) where
  abbrev pub Performed : Type 0
  Performed = Result Fault (Unit {0}) × (P × F)

  abbrev pub on_system : Effect ProvisionError P → P → F → Performed
  on_system e p f = (map_err provision_fault (e p).0, ((e p).1, f))

  abbrev pub on_files : Effect FileAccessError F → P → F → Performed
  on_files e p f = (map_err access_fault (e f).0, (p, (e f).1))

  unfoldable pub perform : Op → P → F → Performed
  perform (Op.create_group name gid) = on_system (provisioner.create_group name gid)
  perform (Op.create acct) = on_system (provisioner.create acct)
  perform (Op.update acct changes) = on_system (provisioner.update acct changes)
  perform (Op.delete name) = on_system (provisioner.delete name)
  perform (Op.apply_sudoers acct) = on_system (provisioner.apply_sudoers acct)
  perform (Op.remove_sudoers name) = on_system (provisioner.remove_sudoers name)
  perform (Op.materialize principal grants) = on_files (backend.materialize principal grants)
  perform (Op.revoke principal grant) = on_files (backend.revoke principal grant)
  perform (Op.apply_group_sudoers g) = on_system (provisioner.apply_group_sudoers g)
  perform (Op.remove_group_sudoers name) = on_system (provisioner.remove_group_sudoers name)
  perform (Op.add_member name m) = on_system (provisioner.add_group_member name m)
  perform (Op.remove_member name m) = on_system (provisioner.remove_group_member name m)
  perform (Op.delete_group name) = on_system (provisioner.delete_group name)
  perform (Op.no_group name) = λ p f. (err (missing_group name), (p, f))

  abbrev pub continue : Performed → (P → F → Performed) → Performed
  continue (ok u, (p, f)) k = k p f
  continue (err e, w) k = (err e, w)

  unfoldable pub perform_all : List Op → P → F → Performed
  unfolding perform
  perform_all [] p f = (ok tt, (p, f))
  perform_all (op ∷ ops) p f = continue (perform op p f) (perform_all ops)
