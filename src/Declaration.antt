-- ===== src/Declaration.antt =====
-- The declaration of src/declaration.rs: its records, and the checks that `Declaration::parse` makes
-- after the TOML parser.
pub mod Accounts
pub mod Groups
pub mod Valid
pub mod Gather
pub mod Required
use census.Prelude.Map
use census.Prelude.{
  is_digit, find, all, ◌==◌, ◌||◌, true, str_eq, length, ◌>>=◌, ◌>>◌, ◌++◌, ◌&&◌, not, none, ltb,
  leb, false, err, any, [], ◌∷◌, some, ok, map, if◌then◌else◌, Bool, ℕ, Text, Result, Option, List,
}
use census.Prelude.Map.{Map}
use census.Model.{ResolvedAccount}

pub record Defaults : Type 0 where
  pub uid_range : ℕ × ℕ
  pub shell : Text
  pub home_base : Text

pub record GroupSpec : Type 0 where
  pub name : Text
  pub gid : Option ℕ
  pub adopt : Bool
  pub members : List Text

pub record RoleAccount : Type 0 where
  pub role : Text
  pub uid : Option ℕ
  pub user : Option Text
  pub adopt : Bool
  pub shell : Option Text
  pub home : Option Text

pub record RoleGroup : Type 0 where
  pub role : Text
  pub group : Text

pub record Declaration : Type 0 where
  pub schema : ℕ
  pub version : ℕ
  pub role_store : Text
  pub defaults : Defaults
  pub role_accounts : List RoleAccount
  pub groups : List GroupSpec
  pub role_groups : List RoleGroup
  pub signature : Option Text

abbrev pub supported_schema : ℕ
supported_schema = 1

-- `toml_parse` is the error of the TOML parser, whose message is left out.
pub data DeclarationError : Type 0 where
  toml_parse : DeclarationError
  schema_unsupported : ℕ → ℕ → DeclarationError
  version_zero : ℕ → DeclarationError
  uid_range_inverted : ℕ → ℕ → DeclarationError
  uid_out_of_range : Text → ℕ → ℕ → ℕ → DeclarationError
  uid_collision : ℕ → Text → Text → DeclarationError
  duplicate_role : Text → DeclarationError
  role_id_invalid : Text → DeclarationError
  group_name_invalid : Text → DeclarationError
  duplicate_group : Text → DeclarationError
  invalid_group_name : Text → DeclarationError
  account_uid_and_user : Text → DeclarationError
  account_adopt_inconsistent : Text → DeclarationError
  account_no_identity : Text → DeclarationError
  user_name_invalid : Text → DeclarationError
  group_adopt_with_gid : Text → DeclarationError
  group_member_name_invalid : Text → Text → DeclarationError
  adopted_group_member_unmanaged : Text → Text → DeclarationError
  role_group_undeclared_group : Text → Text → DeclarationError
  duplicate_role_group : Text → Text → DeclarationError

abbrev pub is_ascii_lowercase : ℕ → Bool
is_ascii_lowercase c = leb b'a' c && leb c b'z'

-- A text longer in bytes than in code points has a character that no name may have.
unfoldable pub is_valid_group_name : Text → Bool
is_valid_group_name [] = false
is_valid_group_name (first ∷ rest) =
    if ltb 32 (length (first ∷ rest))
    then false
    else if not (is_ascii_lowercase first || first == b'_')
    then false
    else all (λ b. is_ascii_lowercase b || (is_digit b || (b == b'_' || b == b'-'))) rest

unfoldable pub is_valid_user_name : Text → Bool
is_valid_user_name name = is_valid_group_name name

unfoldable pub is_valid_role_id : Text → Bool
is_valid_role_id [] = false
is_valid_role_id (first ∷ rest) =
    if ltb 16 (length (first ∷ rest))
    then false
    else if not (is_ascii_lowercase first)
    then false
    else all (λ b. is_ascii_lowercase b || (is_digit b || b == b'-')) rest

-- `contains` on a list of texts
abbrev pub seen_in : List Text → Text → Bool
seen_in seen s = any (λ x. str_eq x s) seen

-- The UID checks of a created account.
unfoldable pub check_created :
    ℕ → ℕ → List (ℕ × Text) → Text → Bool → ℕ → Result DeclarationError (List (ℕ × Text))
check_created min max seen_uid role adopt uid =
    if adopt
    then err (account_adopt_inconsistent role)
    else if ltb uid min || ltb max uid
    then err (uid_out_of_range role uid min max)
    else (elim (find (λ p. p.0 == uid) seen_uid) [
      | some p ↦ err (uid_collision uid p.1 role)
      | none ↦ ok (seen_uid ++ ((uid, role) ∷ []))
    ])

-- The `match` on the identity of an account; it returns the UIDs seen from then on.
unfoldable pub check_identity :
    ℕ
    → ℕ
    → List (ℕ × Text)
    → Text
    → Bool
    → Option ℕ
    → Option Text
    → Result DeclarationError (List (ℕ × Text))
check_identity min max seen_uid role adopt (some uid) (some user) = err (account_uid_and_user role)
check_identity min max seen_uid role adopt none none = err (account_no_identity role)
check_identity min max seen_uid role adopt (some uid) none =
    check_created min max seen_uid role adopt uid
check_identity min max seen_uid role adopt none (some user) =
    if not adopt
    then err (account_adopt_inconsistent role)
    else if not (is_valid_user_name user)
    then err (user_name_invalid user)
    else ok seen_uid

-- The loop over the role accounts.
unfoldable pub check_accounts :
    ℕ → ℕ → List (ℕ × Text) → List Text → List RoleAccount → Result DeclarationError (Unit {0})
check_accounts min max seen_uid seen_role [] = ok tt
check_accounts min max seen_uid seen_role (acct ∷ accts) =
    if not (is_valid_role_id acct.role)
    then err (role_id_invalid acct.role)
    else if seen_in seen_role acct.role
    then err (duplicate_role acct.role)
    else (check_identity min max seen_uid acct.role acct.adopt acct.uid acct.user >>= λ seen_uid'.
        check_accounts min max seen_uid' (seen_role ++ (acct.role ∷ [])) accts)

abbrev pub os_user : Text → Option Text → Text
os_user role (some user) = user
os_user role none = role

-- The OS users that Census manages.
unfoldable pub managed_users : List RoleAccount → List Text
managed_users accts = map (λ a. os_user a.role a.user) accts

-- The loop over the members of a group.
unfoldable pub check_members :
    List Text → Text → Bool → List Text → Result DeclarationError (Unit {0})
check_members managed group adopt [] = ok tt
check_members managed group adopt (member ∷ members) =
    if not (is_valid_user_name member)
    then err (group_member_name_invalid group member)
    else if adopt && not (seen_in managed member)
    then err (adopted_group_member_unmanaged group member)
    else check_members managed group adopt members

abbrev pub is_some : {A : Type 0} → Option A → Bool
is_some none = false
is_some (some a) = true

-- The loop over the groups; it returns the names that it saw.
unfoldable pub check_groups :
    List Text → List Text → List GroupSpec → Result DeclarationError (List Text)
check_groups managed seen_group [] = ok seen_group
check_groups managed seen_group (g ∷ groups) =
    if not (is_valid_group_name g.name)
    then err (group_name_invalid g.name)
    else if seen_in seen_group g.name
    then err (duplicate_group g.name)
    else if g.adopt && is_some g.gid
    then err (group_adopt_with_gid g.name)
    else (check_members managed g.name g.adopt g.members
        >> check_groups managed (seen_group ++ (g.name ∷ [])) groups)

abbrev pub seen_pair_in : List (Text × Text) → Text × Text → Bool
seen_pair_in seen p = any (λ x. str_eq x.0 p.0 && str_eq x.1 p.1) seen

-- The loop over the bindings of roles to groups.
unfoldable pub check_bindings :
    List Text → List (Text × Text) → List RoleGroup → Result DeclarationError (Unit {0})
check_bindings seen_group seen_pair [] = ok tt
check_bindings seen_group seen_pair (rg ∷ role_groups) =
    if not (is_valid_role_id rg.role)
    then err (role_id_invalid rg.role)
    else if not (seen_in seen_group rg.group)
    then err (role_group_undeclared_group rg.role rg.group)
    else if seen_pair_in seen_pair (rg.role, rg.group)
    then err (duplicate_role_group rg.role rg.group)
    else check_bindings seen_group (seen_pair ++ ((rg.role, rg.group) ∷ [])) role_groups

unfoldable pub validate : Declaration → Result DeclarationError (Unit {0})
validate decl =
    let min = decl.defaults.uid_range.0 in
    let max = decl.defaults.uid_range.1 in
    if ltb supported_schema decl.schema
    then err (schema_unsupported decl.schema supported_schema)
    else if ltb decl.version 1
    then err (version_zero decl.version)
    else if ltb max min
    then err (uid_range_inverted min max)
    else (check_accounts min max [] [] decl.role_accounts
        >> (check_groups (managed_users decl.role_accounts) [] decl.groups >>= λ seen_group.
            check_bindings seen_group [] decl.role_groups))
