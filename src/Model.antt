-- ===== src/Model.antt =====
-- The resolved objects of src/model.rs: accounts and groups as the declaration and the role store
-- make them.
use census.Prelude.{ℕ, Bool, Option, none, some, List, Text}
use census.Catalog.Grants.{ResolvedFileGrant}

-- `Provenance`
pub data Provenance : Type 0 where
  created adopted : Provenance

-- `SudoCommand`; `runas` is `none` for root.
pub record SudoCommand : Type 0 where
  pub command : Text
  pub runas : Option Text

-- `Limits` of src/rolestore.rs
pub record Limits : Type 0 where
  pub nofile : Option ℕ
  pub nproc : Option ℕ

pub record ResolvedAccount : Type 0 where
  pub name : Text
  pub uid : ℕ
  pub shell : Text
  pub home : Text
  pub groups : List Text
  pub sudo_role : Option Text
  pub sudo_commands : List SudoCommand
  pub limits : Limits
  pub file_grants : List ResolvedFileGrant
  pub locked_password : Bool
  pub provenance : Provenance

pub record ResolvedGroup : Type 0 where
  pub name : Text
  pub gid : Option ℕ
  pub provenance : Provenance
  pub members : List Text
  pub sudo_commands : List SudoCommand
  pub file_grants : List ResolvedFileGrant
  pub limits : Limits
  pub bound_roles : List Text

-- `p == q`
unfoldable pub same_provenance : Provenance → Provenance → Bool
same_provenance created created = Bool.true
same_provenance adopted adopted = Bool.true
same_provenance _ _ = Bool.false

abbrev pub root : Text → SudoCommand
root command = record { command = command; runas = none }

abbrev pub as_user : Text → Text → SudoCommand
as_user command runas = record { command = command; runas = some runas }
