-- ===== src/Apply/Prepare.antt =====
-- The first half of `run` of src/apply.rs: the checks before the first mutation.
pub mod Plans
pub mod Trusted
use census.Prelude.Map
use census.Prelude.{
  any, find, none, is_empty, ◌∷◌, some, map, codes, ℕ, ok, if◌then◌else◌, err, [], ◌++◌, Text,
  Result, Option, List, Bool, ◌>>◌, ◌>>=◌,
}
use census.Apply.Exec.{
  reconcile_warning, resolve_warning, lockout_error, group_plan, declaration_error, resolve_error,
  retains_revoked, deferred_group, trust_error, deferred_delete, session_registry, ApplyError,
  LogLine, Retained,
}
use census.FileAccess.{route_grants, FileAccessBackend, Capabilities}
use census.Declaration.{Declaration}
use census.State.{RegistryState, ManagedAccount}
use census.Trust.{mode_of, verify_trust, TrustOptions, TrustSource, TrustMode}
use census.Plan.{is_destructive, Plan, GroupAction, Action}
use census.Apply.Reconcile.{
  fold_required, untouched_login_shells, retain_groups, deferred_group_names,
  reconcile_live_sessions, keeps_group_action, DeferredDelete,
}
use census.Sessions.{no_sessions, LiveSessions}
use census.Prelude.Map.{Map}
use census.Provision.{Provisioner}
use census.Model.{ResolvedGroup, ResolvedAccount}
use census.Catalog.Grants.{ResolvedFileGrant}
use census.Inspect.{GroupInspector, SystemInspector}
use census.Lockout.{gate, LockoutContext}
use census.Apply.Touched.{group_owned_by}
use census.Declaration.Gather.{required_groups}
use census.Plan.Groups.{diff_groups_via_inspector}
use census.Plan.Accounts.{diff}
use census.Plan.Declared.{diff_resolved_groups}

-- The objects that `crate::model::resolve` and `resolve_groups` make of the declaration, with
-- their warnings, or the message of their error.
abbrev pub Resolution : Type 0 → Type 0
Resolution A = Result Text (List A × List Text)

pub record ApplyInputs (P : Type 0) : Type 0 where
  pub declaration : Declaration
  pub declaration_bytes : List ℕ
  pub state : RegistryState
  pub inspector : SystemInspector P
  pub trust : TrustOptions
  pub lockout : LockoutContext
  pub sudoers_dir : Text
  pub live : Result Text LiveSessions
  pub sessions_file : Text
  pub resolve : Declaration → Resolution ResolvedAccount
  pub resolve_groups : Declaration → Resolution ResolvedGroup

-- What the checks before the first mutation settle.
pub record Prepared : Type 0 where
  pub trust_mode : TrustMode
  pub targets : List ResolvedAccount
  pub resolved_groups : List ResolvedGroup
  pub required : Map (Option ℕ)
  pub plan : Plan
  pub rgroup_actions : List GroupAction
  pub deferred : List DeferredDelete
  pub log : List LogLine

abbrev pub make_plan : List Action → List GroupAction → Plan
make_plan actions group_actions = record { actions = actions; group_actions = group_actions }

abbrev pub map_err : {E D A : Type 0} → (E → D) → Result E A → Result D A
map_err f (ok a) = ok a
map_err f (err e) = err (f e)

abbrev pub mode_or_refuse : Option TrustMode → Result ApplyError TrustMode
mode_or_refuse none = err ApplyError.not_trusted
mode_or_refuse (some mode) = ok mode

-- The capability gate over one list of grants after the other.
unfoldable pub check_routes :
    Capabilities → List (List ResolvedFileGrant) → Result ApplyError (Unit {0})
check_routes caps [] = ok tt
check_routes caps (grants ∷ rest) = do
  routed ←
      map_err ApplyError.file_access
        (if is_empty grants then ok [] else route_grants grants (caps ∷ []))
  check_routes caps rest

-- An unreadable session registry stops a plan that deletes, and no other.
unfoldable pub live_or_refuse : Bool → Result Text LiveSessions → Result ApplyError LiveSessions
live_or_refuse plan_has_delete (ok live) = ok live
live_or_refuse plan_has_delete (err e) =
    if plan_has_delete then err (session_registry e) else ok no_sessions

abbrev pub optional_role : Option Text → List Retained
optional_role none = []
optional_role (some role) = Retained.sudo_role role ∷ []

unfoldable pub retained_rights : ManagedAccount → List Retained
retained_rights record_now =
    optional_role record_now.sudo_role
    ++ (map Retained.sudo_command record_now.sudo_commands
        ++ map (λ g. Retained.file_grant g.path) record_now.file_grants)

abbrev pub retained_line : Text → Option ManagedAccount → List LogLine
retained_line name none = []
retained_line name (some r) =
    if is_empty (retained_rights r) then [] else retains_revoked name (retained_rights r) ∷ []

-- What is logged about the deferred deletes.
unfoldable pub deferred_lines : Text → Map ManagedAccount → List DeferredDelete → List LogLine
unfolding retained_rights
deferred_lines sessions_file managed_now [] = []
deferred_lines sessions_file managed_now (d ∷ deferred) =
    deferred_delete d.name d.uid sessions_file ∷ retained_line d.name (Map.get d.name managed_now)
    ++ deferred_lines sessions_file managed_now deferred

abbrev pub owner_name : Option DeferredDelete → Text
owner_name none = codes "?"
owner_name (some d) = d.name

-- What is logged about the group deletes that are dropped.
unfoldable pub deferred_group_lines :
    List Text → Map ManagedAccount → List DeferredDelete → List GroupAction → List LogLine
deferred_group_lines names managed_now deferred [] = []
deferred_group_lines names managed_now deferred (GroupAction.delete name ∷ actions) =
    let rest = deferred_group_lines names managed_now deferred actions in
    if keeps_group_action names (GroupAction.delete name)
    then rest
    else deferred_group name
        (owner_name (find (λ d. group_owned_by d.name managed_now name) deferred))
      ∷ rest
deferred_group_lines names managed_now deferred (ga ∷ actions) =
    deferred_group_lines names managed_now deferred actions

abbrev pub risk_lines : Bool → List LogLine
risk_lines acknowledged = if acknowledged then LogLine.risk_acknowledged ∷ [] else []

module _ {Key P F : Type 0} (sys : TrustSource Key) (provisioner : Provisioner P)
    (backend : FileAccessBackend F) where
  -- The inspector, on the system as it stands.
  abbrev pub inspect_now : SystemInspector P → P → GroupInspector
  inspect_now inspector p = record {
    group = inspector.group p;
    group_name_by_gid = inspector.group_name_by_gid p;
  }

  -- Everything up to the anti-lockout gate: no seam is used but to read.
  unfoldable pub prepare : ApplyInputs P → P → Result ApplyError Prepared
  prepare inputs p = do
    decision ←
        map_err trust_error
          (verify_trust sys inputs.declaration inputs.declaration_bytes inputs.trust)
    trust_mode ← mode_or_refuse (mode_of decision)
    targets ← map_err resolve_error (inputs.resolve inputs.declaration)
    groups ← map_err resolve_error (inputs.resolve_groups inputs.declaration)
    check_routes backend.capabilities (map (λ t. t.file_grants) targets.0)
    check_routes backend.capabilities (map (λ g. g.file_grants) groups.0)
    required ← map_err declaration_error (required_groups inputs.declaration targets.0)
    group_actions ←
        map_err group_plan
          (diff_groups_via_inspector required inputs.state.groups (inspect_now inputs.inspector p))
    let actions = (diff targets.0 inputs.state.accounts).actions
    live ← live_or_refuse (any is_destructive actions) inputs.live
    let reconciled = reconcile_live_sessions actions inputs.state.accounts live
    let names = deferred_group_names reconciled.deferred inputs.state.accounts
    let plan = make_plan reconciled.actions (retain_groups names group_actions)
    map_err lockout_error
        (gate plan inputs.lockout (untouched_login_shells plan.actions inputs.state.accounts))
    ok (record {
      trust_mode = trust_mode;
      targets = targets.0;
      resolved_groups = groups.0;
      required = fold_required names required;
      plan = plan;
      rgroup_actions = diff_resolved_groups groups.0 inputs.state.groups;
      deferred = reconciled.deferred;
      log =
          LogLine.reason decision ∷ map resolve_warning targets.1
          ++ (map resolve_warning groups.1
              ++ (map reconcile_warning reconciled.log
                  ++ (deferred_lines inputs.sessions_file inputs.state.accounts reconciled.deferred
                      ++ (deferred_group_lines names inputs.state.accounts reconciled.deferred
                            group_actions
                          ++ risk_lines inputs.lockout.risk_acknowledged))));
    })
