-- ===== src/Plan/Declared/Sync.antt =====
-- `diff_group_fields` of src/plan.rs where nothing is to be done.
use census.Model.{ResolvedGroup}
use census.Plan.Declared.{diff_group_fields}
use census.State.{ManagedGroup}
use census.Prelude.{arith, true, ◌↔◌, map, [], ◌≡◌, Perm}
use census.Plan.Equality.{
  str_set_equal, str_set_equal_iff, file_grants_set_equal, resolved_key, file_grants_set_equal_iff,
  sudo_set_equal_iff, sudo_set_equal, managed_key, sudo_key,
}

-- The record holds what the declared group wants, up to the order of its lists.
pub record GroupInSync (t : ResolvedGroup) (c : ManagedGroup) : Type 0 where
  pub sudo_commands : Perm (map sudo_key c.sudo_commands) (map sudo_key t.sudo_commands)
  pub file_grants : Perm (map managed_key c.file_grants) (map resolved_key t.file_grants)
  pub members : Perm c.members_added t.members

group_fields-nil :
    (t : ResolvedGroup) (c : ManagedGroup)
    → (diff_group_fields t c ≡ []) ↔ (
        (sudo_set_equal c.sudo_commands t.sudo_commands ≡ true)
        × (file_grants_set_equal c.file_grants t.file_grants ≡ true)
        × (str_set_equal c.members_added t.members ≡ true))
unfolding diff_group_fields
group_fields-nil t c = (λ h. ground arith, λ h. ground arith)

-- A group diff has no line exactly when the record has, up to order, the sudo commands, the file
-- grants and the members of the declared group.
pub diff_group_fields-nil_iff :
    (t : ResolvedGroup) (c : ManagedGroup) → (diff_group_fields t c ≡ []) ↔ GroupInSync t c
diff_group_fields-nil_iff t c = (
  λ h.
      let n = (group_fields-nil t c).0 h in
      record {
        sudo_commands = (sudo_set_equal_iff _ _).0 n.0;
        file_grants = (file_grants_set_equal_iff _ _).0 n.1;
        members = (str_set_equal_iff _ _).0 n.2;
      },
  λ s. (group_fields-nil t c).1 (
    (sudo_set_equal_iff _ _).1 s.sudo_commands,
    (file_grants_set_equal_iff _ _).1 s.file_grants,
    (str_set_equal_iff _ _).1 s.members,
  ),
)
