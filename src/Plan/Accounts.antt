-- ===== src/Plan/Accounts.antt =====
-- `diff_fields` and `diff` of src/plan.rs: resolved target accounts against the registry.
pub mod Sync
pub mod Actions
pub mod Order
use census.Prelude.{
  ◌≡◌, Bool, true, false, not, Option, none, some, List, [], ◌∷◌, ◌++◌, map, Text, str_eq, any,
  is_empty, ◌==◌, if◌then◌else◌, eq_ord, nat_ord, option_ord, list_ord,
}
use census.Prelude.Map
use census.Prelude.Map.{Map}
use census.Model.{ResolvedAccount}
use census.State.{ManagedAccount}
use census.Plan.{Change, Action, Plan}
use census.Plan.Equality.{str_set_equal, sudo_set_equal, file_grants_set_equal}

-- `if test { changes.push(c) }`
abbrev pub push_if {ℓ} : {A : Type ℓ} → Bool → A → List A
push_if test c = if test then c ∷ [] else []

-- `==` on `Option<String>`
unfoldable pub role_eq : Option Text → Option Text → Bool
role_eq a b = eq_ord a b

unfoldable pub diff_fields : ResolvedAccount → ManagedAccount → List Change
diff_fields target current =
    push_if (not (target.uid == current.uid)) (Change.uid current.uid target.uid)
    ++ (push_if (not (str_eq target.shell current.shell)) (Change.shell current.shell target.shell)
        ++ (push_if (not (str_set_equal current.groups target.groups))
              (Change.groups current.groups target.groups)
            ++ (push_if (not (role_eq target.sudo_role current.sudo_role))
                  (Change.sudo current.sudo_role target.sudo_role)
                ++ (push_if (not (sudo_set_equal current.sudo_commands target.sudo_commands))
                      (Change.sudo_commands current.sudo_commands target.sudo_commands)
                    ++ push_if (not (file_grants_set_equal current.file_grants target.file_grants))
                        (Change.file_grants current.file_grants target.file_grants)))))

-- The action for one target, if any, from its record.
unfoldable pub target_action : ResolvedAccount → Option ManagedAccount → List Action
target_action target none = Action.create target ∷ []
target_action target (some current) =
    let changes = diff_fields target current in
    if is_empty changes then [] else Action.update target changes ∷ []

-- The loop over the targets.
unfoldable pub target_actions : List ResolvedAccount → Map ManagedAccount → List Action
target_actions [] managed = []
target_actions (t ∷ targets) managed =
    target_action t (Map.get t.name managed) ++ target_actions targets managed

-- `declared.contains(name)`
unfoldable pub is_declared : List ResolvedAccount → Text → Bool
is_declared targets name = any (λ t. str_eq t.name name) targets

-- The loop over the managed names.
unfoldable pub delete_actions : List ResolvedAccount → Map ManagedAccount → List Action
delete_actions targets [] = []
delete_actions targets ((name, current) ∷ managed) =
    if is_declared targets name
    then delete_actions targets managed
    else Action.delete name ∷ delete_actions targets managed

unfoldable pub diff : List ResolvedAccount → Map ManagedAccount → Plan
diff targets managed = record {
  actions = target_actions targets managed ++ delete_actions targets managed;
  group_actions = [];
}
