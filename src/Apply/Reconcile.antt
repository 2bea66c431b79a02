-- ===== src/Apply/Reconcile.antt =====
-- `reconcile_live_sessions` and what `run` derives from it (src/apply.rs): deletes of accounts with
-- a live session are put off.
pub mod Safety
pub mod Deferred
pub mod Lockout
use census.Prelude.Map
use census.Plan.{GroupAction, Action}
use census.Prelude.{
  true, str_eq, none, any, some, not, if◌then◌else◌, ◌++◌, ◌∷◌, filter, [], Bool, ℕ, Text, Option,
  List,
}
use census.State.{ManagedAccount}
use census.Prelude.Map.{Map}
use census.Sessions.{matches, LiveSessions}

pub record DeferredDelete : Type 0 where
  pub name : Text
  pub uid : ℕ

-- The lines that the loop logs, by the account that has no record.
pub data Warning : Type 0 where
  no_record : Text → Warning

pub record Reconciled : Type 0 where
  pub actions : List Action
  pub deferred : List DeferredDelete
  pub log : List Warning

-- One round of `retain`, on a delete: its record decides, with what the later rounds give.
abbrev pub reconcile_delete : Text → Option ManagedAccount → LiveSessions → Reconciled → Reconciled
reconcile_delete name none live rest = record rest {
  actions = Action.delete name ∷ rest.actions;
  log = no_record name ∷ rest.log;
}
reconcile_delete name (some r) live rest =
    if matches live name r.uid
    then record rest { deferred = (record { name = name; uid = r.uid }) ∷ rest.deferred }
    else record rest { actions = Action.delete name ∷ rest.actions }

abbrev pub reconcile_step : Action → Map ManagedAccount → LiveSessions → Reconciled → Reconciled
reconcile_step (Action.delete name) managed live rest =
    reconcile_delete name (Map.get name managed) live rest
reconcile_step action managed live rest = record rest { actions = action ∷ rest.actions }

unfoldable pub reconcile_live_sessions :
    List Action → Map ManagedAccount → LiveSessions → Reconciled
reconcile_live_sessions [] managed live = record { actions = []; deferred = []; log = [] }
reconcile_live_sessions (a ∷ actions) managed live =
    reconcile_step a managed live (reconcile_live_sessions actions managed live)

-- The groups that a recorded account holds.
abbrev pub recorded_groups : Option ManagedAccount → List Text
recorded_groups none = []
recorded_groups (some r) = r.groups

unfoldable pub deferred_group_names : List DeferredDelete → Map ManagedAccount → List Text
deferred_group_names [] managed = []
deferred_group_names (d ∷ deferred) managed =
    d.name ∷ recorded_groups (Map.get d.name managed) ++ deferred_group_names deferred managed

-- The test of `retain` on the group actions.
unfoldable pub keeps_group_action : List Text → GroupAction → Bool
keeps_group_action names (GroupAction.delete name) = not (any (λ n. str_eq n name) names)
keeps_group_action names _ = true

unfoldable pub retain_groups : List Text → List GroupAction → List GroupAction
retain_groups names actions = filter (keeps_group_action names) actions

-- `required_groups.entry(name).or_insert(None)`
unfoldable pub fold_required : List Text → Map (Option ℕ) → Map (Option ℕ)
fold_required [] required = required
fold_required (n ∷ names) required =
    fold_required names
      (if Map.contains_key n required then required else Map.insert n none required)

-- The name that an account action is about.
unfoldable pub action_name : Action → Text
action_name (Action.create acct) = acct.name
action_name (Action.update account changes) = account.name
action_name (Action.delete name) = name

-- The shells of the recorded accounts that no action is about.
unfoldable pub untouched_login_shells : List Action → Map ManagedAccount → List Text
unfolding action_name
untouched_login_shells actions [] = []
untouched_login_shells actions ((name, r) ∷ managed) =
    if any (λ a. str_eq (action_name a) name) actions
    then untouched_login_shells actions managed
    else r.shell ∷ untouched_login_shells actions managed
