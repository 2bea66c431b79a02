-- ===== src/Provision.antt =====
-- The provisioning seam of src/mutate.rs: the trait that the apply run drives.
pub mod Argv
pub mod ShadowUtils
use census.Prelude.{ℕ, Option, List, Text}
use census.Model.{ResolvedAccount, ResolvedGroup}
use census.Plan.{Change}
use census.FileAccess.{Effect}

pub data ProvisionError : Type 0 where
  uid_change : Text → ℕ → ℕ → ProvisionError
  missing_managed_record : Text → ProvisionError
  command_failed : List Text → Text → Text → ProvisionError
  spawn_failed : List Text → Text → ProvisionError
  backup : Text → ProvisionError
  sudoers : Text → ProvisionError

-- The trait, over the state `P` that a provisioner acts on.
pub record Provisioner (P : Type 0) : Type 0 where
  pub create : ResolvedAccount → Effect ProvisionError P
  pub update : ResolvedAccount → List Change → Effect ProvisionError P
  pub delete : Text → Effect ProvisionError P
  pub create_group : Text → Option ℕ → Effect ProvisionError P
  pub group_gid : Text → P → Option ℕ
  pub delete_group : Text → Effect ProvisionError P
  pub apply_sudoers : ResolvedAccount → Effect ProvisionError P
  pub remove_sudoers : Text → Effect ProvisionError P
  pub apply_group_sudoers : ResolvedGroup → Effect ProvisionError P
  pub remove_group_sudoers : Text → Effect ProvisionError P
  pub add_group_member : Text → Text → Effect ProvisionError P
  pub remove_group_member : Text → Text → Effect ProvisionError P
  pub track_sudoers_backup : Text → P → P
  pub snapshot : Effect ProvisionError P
  pub restore : Effect ProvisionError P
