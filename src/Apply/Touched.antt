-- ===== src/Apply/Touched.antt =====
-- What an apply run is going to touch (src/apply.rs): the sudoers fragments and the file-access
-- paths to save before the first mutation, and the lookups that the phases share.
use census.Prelude.Map
use census.Prelude.{
  some, none, ◌∷◌, [], ◌++◌, Text, List, Option, Bool, path_eq, if◌then◌else◌, any, map, find,
  str_eq, true, false, join,
}
use census.State.{ManagedFileGrant, ManagedAccount, ManagedGroup}
use census.Catalog.Grants.{ResolvedFileGrant, shape_of}
use census.Model.{ResolvedAccount, ResolvedGroup}
use census.Plan.{Action, GroupAction}
use census.Apply.Accounts.{removed_grants}
use census.Apply.Groups.{removed_group_grants}
use census.Apply.Reconcile.{action_name}
use census.Sudoers.{sudoers_filename, sudoers_group_path}
use census.Prelude.Map.{Map}

-- `if !paths.contains(&p) { paths.push(p) }`
unfoldable pub push_path : Text → List Text → List Text
push_path p paths = if any (λ q. path_eq q p) paths then paths else paths ++ (p ∷ [])

unfoldable pub push_paths : List Text → List Text → List Text
unfolding push_path
push_paths [] paths = paths
push_paths (p ∷ ps) paths = push_paths ps (push_path p paths)

unfoldable pub resolved_from_managed : ManagedFileGrant → ResolvedFileGrant
resolved_from_managed g = record {
  path = g.path;
  access = g.access;
  recursive = g.recursive;
  shape = shape_of (record { path = g.path; access = g.access; recursive = g.recursive });
  sources = [];
}

unfoldable pub resolved_group_by_name : List ResolvedGroup → Text → Option ResolvedGroup
resolved_group_by_name groups name = find (λ g. str_eq g.name name) groups

-- Whether the account brought the group along.
unfoldable pub group_owned_by : Text → Map ManagedAccount → Text → Bool
group_owned_by account managed_now group =
    if str_eq account group then true else (elim (Map.get account managed_now) [
      | none ↦ false
      | some m ↦ any (λ g. str_eq g group) m.groups
    ])

abbrev pub grant_paths : List ResolvedFileGrant → List Text
grant_paths grants = map (λ g. g.path) grants

abbrev pub managed_paths : List ManagedFileGrant → List Text
managed_paths grants = map (λ g. g.path) grants

-- The first loop: the grants of every target.
unfoldable pub target_paths : List ResolvedAccount → List Text → List Text
target_paths [] paths = paths
target_paths (t ∷ targets) paths =
    target_paths targets (push_paths (grant_paths t.file_grants) paths)

-- The recorded grants that an account action revokes.
unfoldable pub revoked_by : Map ManagedAccount → Action → List ManagedFileGrant
revoked_by managed_now (Action.create a) = removed_grants a.name a.file_grants managed_now
revoked_by managed_now (Action.update a changes) = removed_grants a.name a.file_grants managed_now
revoked_by managed_now (Action.delete name) = removed_grants name [] managed_now

-- The second loop: what the actions revoke.
unfoldable pub revoked_paths : List Action → Map ManagedAccount → List Text → List Text
revoked_paths [] managed_now paths = paths
revoked_paths (a ∷ actions) managed_now paths =
    revoked_paths actions managed_now (push_paths (managed_paths (revoked_by managed_now a)) paths)

unfoldable pub file_access_touched_paths :
    List Action → List ResolvedAccount → Map ManagedAccount → List Text
file_access_touched_paths actions targets managed_now =
    revoked_paths actions managed_now (target_paths targets [])

unfoldable pub group_action_name : GroupAction → Text
group_action_name (GroupAction.create name gid) = name
group_action_name (GroupAction.adopt name) = name
group_action_name (GroupAction.update name changes) = name
group_action_name (GroupAction.release name) = name
group_action_name (GroupAction.delete name) = name

abbrev pub grants_of : Option ResolvedGroup → List ResolvedFileGrant
grants_of none = []
grants_of (some g) = g.file_grants

-- What a group with grants materializes, then what it gives up.
unfoldable pub granted_paths : Text → List ResolvedGroup → Map ManagedGroup → List Text → List Text
granted_paths name resolved_groups managed paths =
    let keep = grants_of (resolved_group_by_name resolved_groups name) in
    push_paths (managed_paths (removed_group_grants name keep managed))
      (push_paths (grant_paths keep) paths)

unfoldable pub stripped_paths : Text → Map ManagedGroup → List Text → List Text
stripped_paths name managed paths =
    push_paths (managed_paths (removed_group_grants name [] managed)) paths

unfoldable pub group_action_paths :
    GroupAction → List ResolvedGroup → Map ManagedGroup → List Text → List Text
group_action_paths (GroupAction.create name gid) groups managed paths =
    granted_paths name groups managed paths
group_action_paths (GroupAction.adopt name) groups managed paths =
    granted_paths name groups managed paths
group_action_paths (GroupAction.update name changes) groups managed paths =
    granted_paths name groups managed paths
group_action_paths (GroupAction.release name) groups managed paths =
    stripped_paths name managed paths
group_action_paths (GroupAction.delete name) groups managed paths =
    stripped_paths name managed paths

unfoldable pub group_paths_from :
    List GroupAction → List ResolvedGroup → Map ManagedGroup → List Text → List Text
group_paths_from [] groups managed paths = paths
group_paths_from (ga ∷ actions) groups managed paths =
    group_paths_from actions groups managed (group_action_paths ga groups managed paths)

unfoldable pub group_file_access_touched_paths :
    List GroupAction → List ResolvedGroup → Map ManagedGroup → List Text
group_file_access_touched_paths actions groups managed = group_paths_from actions groups managed []

-- `sudoers_dir.join(sudoers_filename(name))`
unfoldable pub fragment_path : Text → Text → Text
fragment_path sudoers_dir name = join sudoers_dir (sudoers_filename name)

unfoldable pub touched_sudoers_paths : List Action → Text → List Text
touched_sudoers_paths actions sudoers_dir =
    push_paths (map (λ a. fragment_path sudoers_dir (action_name a)) actions) []

unfoldable pub touched_group_sudoers_paths : List GroupAction → Text → List Text
touched_group_sudoers_paths actions sudoers_dir =
    push_paths (map (λ ga. sudoers_group_path sudoers_dir (group_action_name ga)) actions) []
