-- ===== src/Apply/Accounts.antt =====
-- `build_managed_set` of src/apply.rs: the account registry after an apply, and the file grants to
-- revoke.
pub mod Versions
pub mod Settled
use census.Prelude.Map
use census.Prelude.{
  option_ord, nat_ord, list_ord, false, sort, str_eq, eq_list, any, not, length, ◌&&◌, ◌∷◌, none,
  if◌then◌else◌, filter, [], ◌==◌, ◌++◌, ℕ, some, map, Bool, Text, Option, List,
}
use census.State.{ManagedFileGrant, from_resolved, ManagedAccount}
use census.Model.{created, ResolvedAccount}
use census.Apply.Reconcile.{DeferredDelete}
use census.Prelude.Map.{Map}
use census.Catalog.Grants.{ResolvedFileGrant}
use census.Plan.Equality.{sudo_set_equal, file_grants_set_equal}
use census.Plan.Accounts.{role_eq}

unfoldable pub groups_equal : List Text → List Text → Bool
groups_equal a b = if length a == length b then eq_list (sort a) (sort b) else false

unfoldable pub file_grants_equal : List ManagedFileGrant → List ResolvedFileGrant → Bool
file_grants_equal managed target = file_grants_set_equal managed target

-- The guard of the `match` on the recorded account.
unfoldable pub unchanged : ManagedAccount → ResolvedAccount → Bool
unfolding file_grants_equal
unchanged existing t =
    (existing.uid == t.uid)
    && (str_eq existing.shell t.shell
        && (groups_equal existing.groups t.groups
            && (role_eq existing.sudo_role t.sudo_role
                && (sudo_set_equal existing.sudo_commands t.sudo_commands
                    && file_grants_equal existing.file_grants t.file_grants))))

unfoldable pub version_for : ResolvedAccount → ℕ → Option ManagedAccount → ℕ
version_for t version none = version
version_for t version (some existing) =
    if unchanged existing t then existing.from_version else version

unfoldable pub record_for : ℕ → Map ManagedAccount → ResolvedAccount → ManagedAccount
unfolding from_resolved
record_for version current t = record {
  name = t.name;
  uid = t.uid;
  shell = t.shell;
  groups = t.groups;
  sudo_role = t.sudo_role;
  sudo_commands = t.sudo_commands;
  file_grants = map from_resolved t.file_grants;
  provenance = created;
  from_version = version_for t version (Map.get t.name current);
}

abbrev pub push_record : Option ManagedAccount → List ManagedAccount → List ManagedAccount
push_record none rest = rest
push_record (some existing) rest = existing ∷ rest

-- The loop over the deferred deletes.
unfoldable pub retained : List DeferredDelete → Map ManagedAccount → List ManagedAccount
retained [] current = []
retained (d ∷ deferred) current = push_record (Map.get d.name current) (retained deferred current)

unfoldable pub build_managed_set :
    List ResolvedAccount → ℕ → Map ManagedAccount → List DeferredDelete → List ManagedAccount
build_managed_set targets version current deferred =
    map (record_for version current) targets ++ retained deferred current

-- The recorded grants, if any, whose path no kept grant has.
unfoldable pub dropped_grants :
    List ResolvedFileGrant → List ManagedFileGrant → List ManagedFileGrant
dropped_grants keep grants = filter (λ m. not (any (λ k. str_eq k.path m.path) keep)) grants

unfoldable pub removed_grants :
    Text → List ResolvedFileGrant → Map ManagedAccount → List ManagedFileGrant
removed_grants name keep managed_now = elim (Map.get name managed_now) [
  | none ↦ []
  | some r ↦ dropped_grants keep r.file_grants
]

-- The account registry as the next run reads it back: `RegistryState::load` keys it by name.
abbrev pub by_name : List ManagedAccount → List (Text × ManagedAccount)
by_name l = map (λ a. (a.name, a)) l

unfoldable pub read_back : List ManagedAccount → Map ManagedAccount
read_back l = Map.collect (by_name l) []
