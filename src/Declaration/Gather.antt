-- ===== src/Declaration/Gather.antt =====
-- `required_groups` of src/declaration.rs.
use census.Prelude.Map
use census.Prelude.{◌>>◌, not, none, err, [], ◌∷◌, ok, if◌then◌else◌, ℕ, Text, Result, Option, List}
use census.Prelude.Map.{Map}
use census.Model.{ResolvedAccount}
use census.Declaration.{
  invalid_group_name, is_valid_group_name, GroupSpec, DeclarationError, Declaration,
}

-- `or_insert(None)` for each group of an account.
unfoldable pub require_groups : List Text → Map (Option ℕ) → Map (Option ℕ)
require_groups [] out = out
require_groups (g ∷ groups) out =
    require_groups groups (if Map.contains_key g out then out else Map.insert g none out)

unfoldable pub require_composed : List ResolvedAccount → Map (Option ℕ) → Map (Option ℕ)
require_composed [] out = out
require_composed (acct ∷ resolved) out = require_composed resolved (require_groups acct.groups out)

unfoldable pub pin_declared : List GroupSpec → Map (Option ℕ) → Map (Option ℕ)
pin_declared [] out = out
pin_declared (g ∷ groups) out = pin_declared groups (Map.insert g.name g.gid out)

unfoldable pub check_names : Map (Option ℕ) → Result DeclarationError (Unit {0})
check_names [] = ok tt
check_names ((name, pin) ∷ out) =
    if not (is_valid_group_name name) then err (invalid_group_name name) else check_names out

unfoldable pub required_groups :
    Declaration → List ResolvedAccount → Result DeclarationError (Map (Option ℕ))
required_groups decl resolved =
    let out = pin_declared decl.groups (require_composed resolved []) in check_names out >> ok out
