-- ===== src/Plan.antt =====
-- The plan of src/plan.rs: its actions, and the diffs of accounts and groups in the modules below.
pub mod Equality
pub mod Accounts
pub mod Groups
pub mod Declared
use census.Prelude.{ℕ, Bool, true, false, ◌&&◌, Option, List, Text, is_empty}
use census.Model.{ResolvedAccount, SudoCommand}
use census.Catalog.Grants.{ResolvedFileGrant}
use census.State.{ManagedFileGrant}

-- A line of `changes`: the field, what is recorded and what is wanted. The source prints these
-- with `format!`.
pub data Change : Type 0 where
  uid : ℕ → ℕ → Change
  shell : Text → Text → Change
  groups : List Text → List Text → Change
  sudo : Option Text → Option Text → Change
  sudo_commands : List SudoCommand → List SudoCommand → Change
  file_grants : List ManagedFileGrant → List ResolvedFileGrant → Change
  members : List Text → List Text → Change

pub data Action : Type 0 where
  create : ResolvedAccount → Action
  update : ResolvedAccount → List Change → Action
  delete : Text → Action

-- `Action::is_destructive`
unfoldable pub is_destructive : Action → Bool
is_destructive (delete name) = true
is_destructive _ = false

pub data GroupAction : Type 0 where
  create : Text → Option ℕ → GroupAction
  adopt : Text → GroupAction
  release : Text → GroupAction
  update : Text → List Change → GroupAction
  delete : Text → GroupAction

-- `GroupAction::is_destructive`
unfoldable pub is_destructive_group : GroupAction → Bool
is_destructive_group (GroupAction.delete name) = true
is_destructive_group _ = false

pub data GroupPlanError : Type 0 where
  gid_pin_conflict : Text → ℕ → Text → GroupPlanError
  pinned_gid_mismatch : Text → ℕ → ℕ → GroupPlanError
  managed_gid_drift : Text → ℕ → ℕ → GroupPlanError

pub record Plan : Type 0 where
  pub actions : List Action
  pub group_actions : List GroupAction

-- `Plan::is_empty`
unfoldable pub plan_is_empty : Plan → Bool
plan_is_empty p = is_empty p.actions && is_empty p.group_actions
