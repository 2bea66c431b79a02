-- ===== src/Plan/Declared.antt =====
-- `diff_resolved_groups` and `diff_group_fields` of src/plan.rs: declared groups with their grants
-- and members against the registry.
pub mod Sync
pub mod Actions
pub mod Emitted
pub mod Exact
use census.Prelude.Map
use census.Prelude.{
  none, is_empty, some, not, if◌then◌else◌, [], ◌∷◌, str_eq, ◌++◌, any, Option, Bool, Text, List,
}
use census.Model.{adopted, created, Provenance, ResolvedGroup}
use census.State.{ManagedGroup}
use census.Prelude.Map.{Map}
use census.Plan.{GroupAction, Change}
use census.Plan.Accounts.{push_if}
use census.Plan.Equality.{str_set_equal, file_grants_set_equal, sudo_set_equal}

unfoldable pub diff_group_fields : ResolvedGroup → ManagedGroup → List Change
diff_group_fields target current =
    push_if (not (sudo_set_equal current.sudo_commands target.sudo_commands))
      (Change.sudo_commands current.sudo_commands target.sudo_commands)
    ++ (push_if (not (file_grants_set_equal current.file_grants target.file_grants))
          (Change.file_grants current.file_grants target.file_grants)
        ++ push_if (not (str_set_equal current.members_added target.members))
            (Change.members current.members_added target.members))

-- A declared group with no record, by its provenance.
unfoldable pub introduce : ResolvedGroup → Provenance → GroupAction
introduce target created = GroupAction.create target.name target.gid
introduce target adopted = GroupAction.adopt target.name

unfoldable pub declared_action : ResolvedGroup → Option ManagedGroup → List GroupAction
unfolding introduce
declared_action target none = introduce target target.provenance ∷ []
declared_action target (some current) =
    let changes = diff_group_fields target current in
    if is_empty changes then [] else GroupAction.update target.name changes ∷ []

unfoldable pub declared_actions : List ResolvedGroup → Map ManagedGroup → List GroupAction
declared_actions [] managed = []
declared_actions (t ∷ targets) managed =
    declared_action t (Map.get t.name managed) ++ declared_actions targets managed

-- `declared.contains(name)`
unfoldable pub is_declared_group : List ResolvedGroup → Text → Bool
is_declared_group targets name = any (λ t. str_eq t.name name) targets

-- A recorded group that is no longer declared, by its recorded provenance.
unfoldable pub retire : Text → Provenance → GroupAction
retire name created = GroupAction.delete name
retire name adopted = GroupAction.release name

unfoldable pub retire_actions : List ResolvedGroup → Map ManagedGroup → List GroupAction
unfolding retire
retire_actions targets [] = []
retire_actions targets ((name, mg) ∷ managed) =
    if is_declared_group targets name
    then retire_actions targets managed
    else retire name mg.provenance ∷ retire_actions targets managed

unfoldable pub diff_resolved_groups : List ResolvedGroup → Map ManagedGroup → List GroupAction
diff_resolved_groups targets managed =
    declared_actions targets managed ++ retire_actions targets managed
