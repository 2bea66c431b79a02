-- ===== src/Tests/Fixtures.antt =====
-- A small host: two declared accounts, their records, and a group.
use census.Inspect.{GroupFacts, GroupInspector}
use census.Model.{root, adopted, created, ResolvedGroup, Provenance, ResolvedAccount, Limits}
use census.Prelude.{
  str_eq, ◌==◌, true, some, if◌then◌else◌, ◌∷◌, none, codes, [], Option, ℕ, Text, List,
}
use census.Sessions.{LiveSessions}
use census.State.{ManagedGroup, ManagedFileGrant, ManagedAccount}
use census.Prelude.Map.{Map}
use census.Catalog.Grants.{dir, ro, ResolvedFileGrant}

abbrev pub no_limits : Limits
no_limits = record { nofile = none; nproc = none }

abbrev pub account : Text → ℕ → List Text → ResolvedAccount
account name uid groups = record {
  name = name;
  uid = uid;
  shell = codes "/bin/bash";
  home = codes "/home/x";
  groups = groups;
  sudo_role = none;
  sudo_commands = [];
  limits = no_limits;
  file_grants = [];
  locked_password = true;
  provenance = created;
}

abbrev pub account_record : Text → ℕ → List Text → ManagedAccount
account_record name uid groups = record {
  name = name;
  uid = uid;
  shell = codes "/bin/bash";
  groups = groups;
  sudo_role = none;
  sudo_commands = [];
  file_grants = [];
  provenance = created;
  from_version = 3;
}

abbrev pub etc_app : ResolvedFileGrant
etc_app = record {
  path = codes "/etc/app";
  access = ro;
  recursive = true;
  shape = dir;
  sources = [];
}

abbrev pub etc_app_record : ManagedFileGrant
etc_app_record = record { path = codes "/etc/app"; access = ro; recursive = true }

abbrev pub group_record : Text → Option ℕ → Provenance → ManagedGroup
group_record name gid provenance = record {
  name = name;
  gid = gid;
  provenance = provenance;
  members_added = [];
  sudo_commands = [];
  file_grants = [];
  adopt_baseline = none;
  from_version = 3;
}

abbrev pub declared_group : Text → Provenance → List Text → ResolvedGroup
declared_group name provenance members = record {
  name = name;
  gid = none;
  provenance = provenance;
  members = members;
  sudo_commands = root (codes "/bin/systemctl") ∷ [];
  file_grants = etc_app ∷ [];
  limits = no_limits;
  bound_roles = [];
}

abbrev pub alice : ResolvedAccount
alice = account (codes "alice") 3001 (codes "ops" ∷ codes "dev" ∷ [])

abbrev pub bob : ResolvedAccount
bob = account (codes "bob") 3002 []

abbrev pub targets : List ResolvedAccount
targets = alice ∷ bob ∷ []

abbrev pub alice_record : ManagedAccount
alice_record = account_record (codes "alice") 3001 (codes "dev" ∷ codes "ops" ∷ [])

abbrev pub carol_record : ManagedAccount
carol_record = account_record (codes "carol") 3003 (codes "ops" ∷ [])

-- Alice as declared, with her groups in another order, and Carol, who is no longer declared.
abbrev pub registry : Map ManagedAccount
registry = (codes "alice", alice_record) ∷ (codes "carol", carol_record) ∷ []

abbrev pub ops : Text
ops = codes "ops"

abbrev pub dev : Text
dev = codes "dev"

-- `ops` is live with GID 500 and `dev` is not; 500 is the GID of `ops`.
abbrev pub live_groups : Text → Option GroupFacts
live_groups n = if str_eq n ops then some (record { gid = 500 }) else none

abbrev pub gid_owner : ℕ → Option Text
gid_owner g = if g == 500 then some ops else none

abbrev pub inspector : GroupInspector
inspector = record { group = live_groups; group_name_by_gid = gid_owner }

abbrev pub required : Map (Option ℕ)
required = (dev, some 700) ∷ (ops, some 500) ∷ []

abbrev pub group_registry : Map ManagedGroup
group_registry =
    (codes "old", group_record (codes "old") none created)
    ∷ (ops, group_record ops (some 500) adopted)
    ∷ []

abbrev pub carol_online : LiveSessions
carol_online = record { names = []; uids = 3003 ∷ [] }
