-- ===== src/Apply/Groups.antt =====
-- `build_managed_groups` of src/apply.rs: the group registry after an apply, and what a group
-- action gives up.
pub mod Written
pub mod Settled
use census.Prelude.Map
use census.Prelude.{◌&&◌, some, map, if◌then◌else◌, [], ◌∷◌, ℕ, none, Bool, Text, Option, List}
use census.State.{ManagedFileGrant, GroupBaseline, from_resolved, ManagedGroup}
use census.Prelude.Map.{Map}
use census.Model.{adopted, same_provenance, created, ResolvedGroup, Provenance}
use census.Inspect.{GroupFacts}
use census.Catalog.Grants.{ResolvedFileGrant}
use census.Apply.Accounts.{groups_equal, dropped_grants}
use census.Plan.Equality.{file_grants_set_equal, sudo_set_equal}

-- First loop: recorded groups that are still required are carried forward.
unfoldable pub carry_forward :
    Map ManagedGroup → Map (Option ℕ) → Map ManagedGroup → Map ManagedGroup
carry_forward [] required by_name = by_name
carry_forward ((name, mg) ∷ prior) required by_name =
    carry_forward prior required
      (if Map.contains_key name required then Map.insert name mg by_name else by_name)

-- `pin.or_else(|| inspector.group(name).map(|f| f.gid))`
abbrev pub live_gid : Option GroupFacts → Option ℕ
live_gid none = none
live_gid (some f) = some f.gid

abbrev pub or_else : Option ℕ → Option ℕ → Option ℕ
or_else none b = b
or_else (some a) b = some a

unfoldable pub created_record : Text → Option ℕ → ℕ → ManagedGroup
created_record name gid version = record {
  name = name;
  gid = gid;
  provenance = created;
  members_added = [];
  sudo_commands = [];
  file_grants = [];
  adopt_baseline = none;
  from_version = version;
}

-- Second loop: the groups that this run created.
unfoldable pub add_created :
    List (Text × Option ℕ) → ℕ → (Text → Option GroupFacts) → Map ManagedGroup → Map ManagedGroup
add_created [] version group by_name = by_name
add_created ((name, pin) ∷ new) version group by_name = add_created new version group (
    if Map.contains_key name by_name
    then by_name
    else Map.insert name (created_record name (or_else pin (live_gid (group name))) version)
        by_name)

abbrev pub prior_gid : Option ManagedGroup → Option ℕ
prior_gid none = none
prior_gid (some p) = p.gid

abbrev pub prior_baseline : Option ManagedGroup → Option GroupBaseline
prior_baseline none = none
prior_baseline (some p) = p.adopt_baseline

abbrev pub or_baseline : Option GroupBaseline → Option GroupBaseline → Option GroupBaseline
or_baseline none b = b
or_baseline (some a) b = some a

unfoldable pub baseline_for :
    Provenance → Option GroupBaseline → Option ManagedGroup → Option GroupBaseline
baseline_for created captured prior = none
baseline_for adopted captured prior = or_baseline captured (prior_baseline prior)

-- The guard of the `match` on the recorded group.
unfoldable pub group_unchanged : ManagedGroup → ResolvedGroup → Bool
group_unchanged p rg =
    same_provenance p.provenance rg.provenance
    && (sudo_set_equal p.sudo_commands rg.sudo_commands
        && (groups_equal p.members_added rg.members
            && file_grants_set_equal p.file_grants rg.file_grants))

unfoldable pub group_version_for : ResolvedGroup → ℕ → Option ManagedGroup → ℕ
group_version_for rg version none = version
group_version_for rg version (some p) = if group_unchanged p rg then p.from_version else version

unfoldable pub group_record_for :
    Map ManagedGroup
    → Map GroupBaseline
    → ℕ
    → (Text → Option GroupFacts)
    → ResolvedGroup
    → ManagedGroup
unfolding from_resolved
group_record_for prior adopt_baselines version group rg =
    let prior_record = Map.get rg.name prior in
    record {
      name = rg.name;
      gid = or_else rg.gid (or_else (prior_gid prior_record) (live_gid (group rg.name)));
      provenance = rg.provenance;
      members_added = rg.members;
      sudo_commands = rg.sudo_commands;
      file_grants = map from_resolved rg.file_grants;
      adopt_baseline = baseline_for rg.provenance (Map.get rg.name adopt_baselines) prior_record;
      from_version = group_version_for rg version prior_record;
    }

-- Third loop: the declared groups replace what the first two left.
unfoldable pub overlay :
    List ResolvedGroup → (ResolvedGroup → ManagedGroup) → Map ManagedGroup → Map ManagedGroup
overlay [] make by_name = by_name
overlay (rg ∷ resolved_groups) make by_name =
    overlay resolved_groups make (Map.insert rg.name (make rg) by_name)

-- The records in the order of their names: `by_name` is sorted, and so is its list of values.
unfoldable pub build_managed_groups :
    Map (Option ℕ)
    → List ResolvedGroup
    → Map ManagedGroup
    → List (Text × Option ℕ)
    → Map GroupBaseline
    → ℕ
    → (Text → Option GroupFacts)
    → Map ManagedGroup
build_managed_groups required resolved_groups prior new adopt_baselines version group =
    overlay resolved_groups (group_record_for prior adopt_baselines version group)
      (add_created new version group (carry_forward prior required []))

unfoldable pub removed_group_grants :
    Text → List ResolvedFileGrant → Map ManagedGroup → List ManagedFileGrant
removed_group_grants name keep managed_groups_now = elim (Map.get name managed_groups_now) [
  | none ↦ []
  | some r ↦ dropped_grants keep r.file_grants
]

unfoldable pub members_added_of : Text → Map ManagedGroup → List Text
members_added_of name managed_groups_now = elim (Map.get name managed_groups_now) [
  | none ↦ []
  | some r ↦ r.members_added
]
