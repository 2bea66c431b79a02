-- ===== src/Tests/Declaring.antt =====
-- A declaration, checked.
use census.Prelude.Map
use census.Declaration.{
  adopted_group_member_unmanaged, managed_users, is_valid_user_name, is_valid_role_id,
  is_valid_group_name, check_bindings, check_members, check_groups, check_created, check_identity,
  check_accounts, validate, RoleAccount, GroupSpec, Declaration,
}
use census.Prelude.Map.{Map}
use census.Prelude.{
  err, refl, cmp_text, str_eq, Text, ◌↔◌, true, false, ℕ, some, ok, none, [], ◌≡◌, ◌∷◌, codes,
  Option,
}
use census.Tests.Fixtures.{ops, dev, alice}
use census.Declaration.Valid.{validate-ok_iff, IsValid}
use census.Declaration.Required.{required_groups-ok_iff, wanted, NamesFit}
use census.Declaration.Gather.{
  require_groups, require_composed, pin_declared, check_names, required_groups,
}

abbrev ops_account : RoleAccount
ops_account = record {
  role = ops;
  uid = some 3001;
  user = none;
  adopt = false;
  shell = none;
  home = none;
}

abbrev admin_account : RoleAccount
admin_account = record {
  role = codes "admin";
  uid = none;
  user = some (codes "root");
  adopt = true;
  shell = none;
  home = none;
}

abbrev wheel : GroupSpec
wheel = record { name = codes "wheel"; gid = none; adopt = true; members = codes "root" ∷ [] }

abbrev dev_group : GroupSpec
dev_group = record { name = dev; gid = some 700; adopt = false; members = [] }

abbrev pub host : Declaration
host = record {
  schema = 1;
  version = 9;
  role_store = codes "/etc/roles";
  defaults = record {
    uid_range = (3000, 3999);
    shell = codes "/bin/bash";
    home_base = codes "/home";
  };
  role_accounts = ops_account ∷ admin_account ∷ [];
  groups = wheel ∷ dev_group ∷ [];
  role_groups = (record { role = ops; group = dev }) ∷ [];
  signature = some (codes "ab");
}

validate_test : validate host ≡ ok tt
unfolding validate check_accounts check_identity check_created check_groups check_members
    check_bindings is_valid_role_id is_valid_group_name is_valid_user_name managed_users str_eq
validate_test = refl

abbrev unmanaged : Declaration
unmanaged = record host { role_accounts = ops_account ∷ [] }

-- Without the account that adopts `root`, `root` may not be put into `wheel`.
unmanaged_test :
    validate unmanaged ≡ err (adopted_group_member_unmanaged (codes "wheel") (codes "root"))
unfolding validate check_accounts check_identity check_created check_groups check_members
    check_bindings is_valid_role_id is_valid_group_name is_valid_user_name managed_users str_eq
unmanaged_test = refl

validate-ok_iff_example : (validate host ≡ ok tt) ↔ IsValid host
validate-ok_iff_example = validate-ok_iff host

abbrev ops_and_dev : Map (Option ℕ)
ops_and_dev = (dev, some 700) ∷ (ops, none) ∷ (codes "wheel", none) ∷ []

required_test : required_groups host (alice ∷ []) ≡ ok ops_and_dev
unfolding required_groups check_names pin_declared require_composed require_groups Map.insert
    Map.contains_key str_eq cmp_text is_valid_group_name
required_test = refl

required_groups-ok_iff_example : (required_groups host (alice ∷ []) ≡ ok ops_and_dev) ↔ (
    NamesFit host (alice ∷ [])
    × Map.IsMap ops_and_dev
    × (ops_and_dev ≡ pin_declared host.groups (require_composed (alice ∷ []) []))
    × ((n : Text) → Map.get n ops_and_dev ≡ wanted host (alice ∷ []) n))
required_groups-ok_iff_example = required_groups-ok_iff host (alice ∷ []) ops_and_dev
