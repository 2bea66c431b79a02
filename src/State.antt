-- ===== src/State.antt =====
-- The managed registry of src/state.rs: its records, and loading it.
pub mod Load
use census.Prelude.{ℕ, Bool, Option, List, [], Text}
use census.Prelude.Map.{Map}
use census.Catalog.Grants.{Access, ResolvedFileGrant}
use census.Model.{Provenance, SudoCommand}

pub record ManagedFileGrant : Type 0 where
  pub path : Text
  pub access : Access
  pub recursive : Bool

-- `ManagedFileGrant::from_resolved`
unfoldable pub from_resolved : ResolvedFileGrant → ManagedFileGrant
from_resolved g = record { path = g.path; access = g.access; recursive = g.recursive }

pub record GroupBaseline : Type 0 where
  pub gid : Option ℕ
  pub members : List Text

pub record ManagedAccount : Type 0 where
  pub name : Text
  pub uid : ℕ
  pub shell : Text
  pub groups : List Text
  pub sudo_role : Option Text
  pub sudo_commands : List SudoCommand
  pub file_grants : List ManagedFileGrant
  pub provenance : Provenance
  pub from_version : ℕ

pub record ManagedGroup : Type 0 where
  pub name : Text
  pub gid : Option ℕ
  pub provenance : Provenance
  pub members_added : List Text
  pub sudo_commands : List SudoCommand
  pub file_grants : List ManagedFileGrant
  pub adopt_baseline : Option GroupBaseline
  pub from_version : ℕ

-- `RegistryState`, the only `SystemState` of the program.
pub record RegistryState : Type 0 where
  pub accounts : Map ManagedAccount
  pub groups : Map ManagedGroup

abbrev pub default_empty : RegistryState
default_empty = record { accounts = []; groups = [] }

pub record RegistryFile : Type 0 where
  pub accounts : List ManagedAccount
  pub groups : List ManagedGroup
