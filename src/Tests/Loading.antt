-- ===== src/Tests/Loading.antt =====
-- The registry, loaded.
use census.Prelude.Map
use census.State.Load.{
  load-get, check_group_names, check_account_names, accept_file, GroupNames, load, RegistrySource,
  Parses, AccountNames,
}
use census.State.{ManagedGroup, ManagedAccount, RegistryState, RegistryFile}
use census.Tests.Fixtures.{ops, group_record, alice_record}
use census.Prelude.{ok, none, ◌≡◌, [], ◌∷◌, some, refl, All, true, codes}
use census.Declaration.{is_valid_group_name, is_valid_user_name}
use census.Model.{created}

abbrev saved : RegistryFile
saved = record { accounts = alice_record ∷ []; groups = group_record ops none created ∷ [] }

abbrev source : RegistrySource
source = record { exists = true; read_capped = some (codes "text"); from_toml = λ t. some saved }

abbrev loaded : RegistryState
loaded = record {
  accounts = (codes "alice", alice_record) ∷ [];
  groups = (ops, group_record ops none created) ∷ [];
}

load_test : load source ≡ ok loaded
unfolding load accept_file check_account_names check_group_names is_valid_user_name
    is_valid_group_name Map.collect Map.insert
load_test = refl

source-Parses : Parses source saved
source-Parses = record { text = codes "text"; present = refl; read = refl; parse = refl }

load-get_example :
    AccountNames saved
    × GroupNames saved
    × All (λ (a : ManagedAccount). Map.get a.name loaded.accounts ≡ some a) saved.accounts
    × All (λ (g : ManagedGroup). Map.get g.name loaded.groups ≡ some g) saved.groups
load-get_example = load-get source saved loaded source-Parses (λ i. i, tt) (λ i. i, tt) load_test
