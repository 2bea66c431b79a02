-- ===== src/Apply/Accounts/Versions.antt =====
-- The `from_version` of an account record in `build_managed_set` (src/apply.rs).
use census.Apply.Accounts.{file_grants_equal, version_for, unchanged, groups_equal}
use census.Plan.Accounts.{target_action, diff_fields, role_eq}
use census.Prelude.{
  option_ord, nat_ord, list_ord, sym, str_eq_iff, if◌then◌else◌, eq_ord_iff, some, eq_ord, arith,
  refl, none, is_empty, Bool-eq_of_iff, ◌≡◌, ℕ, Text, List, Option,
}
use census.Plan.Equality.{str_set_equal}
use census.Model.{ResolvedAccount}
use census.State.{ManagedAccount}

role_eq_sym : (a b : Option Text) → role_eq a b ≡ role_eq b a
unfolding role_eq
role_eq_sym a b =
    Bool-eq_of_iff (eq_ord a b) (eq_ord b a) (λ h. (eq_ord_iff b a).1 (sym ((eq_ord_iff a b).0 h)))
      (λ h. (eq_ord_iff a b).1 (sym ((eq_ord_iff b a).0 h)))

groups_equal-eq : (a b : List Text) → groups_equal a b ≡ str_set_equal a b
unfolding groups_equal str_set_equal
groups_equal-eq a b = refl

-- The guard of the registry writer and the field diff of the planner agree on every account.
pub unchanged_iff_no_diff :
    (existing : ManagedAccount) (t : ResolvedAccount)
    → unchanged existing t ≡ is_empty (diff_fields t existing)
unfolding unchanged diff_fields file_grants_equal
unchanged_iff_no_diff existing t = ground (
  arith,
  role_eq_sym existing.sudo_role t.sudo_role,
  groups_equal-eq existing.groups t.groups,
  str_eq_iff existing.shell t.shell,
  str_eq_iff t.shell existing.shell,
)

-- A record keeps its version exactly when the plan has no update for the account, and takes the
-- declaration's version when it has one or creates the account.
pub version_for_lem :
    (t : ResolvedAccount) (version : ℕ) (o : Option ManagedAccount)
    → version_for t version o ≡ (elim o [
      | none ↦ version
      | some c ↦ if is_empty (target_action t (some c)) then c.from_version else version
    ])
unfolding version_for target_action
version_for_lem t version none = refl
version_for_lem t version (some c) = ground (arith, unchanged_iff_no_diff c t)
