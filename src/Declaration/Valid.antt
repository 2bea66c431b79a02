-- ===== src/Declaration/Valid.antt =====
-- `Declaration::validate` of src/declaration.rs as a whole.
use census.Declaration.{
  check_groups, check_accounts, supported_schema, GroupSpec, managed_users, RoleAccount, validate,
  Declaration,
}
use census.Prelude.{
  refl, subst, Fresh-Distinct_iff, arith, >>=-eq_ok, >>-eq_ok_iff, ltb, guard-eq_ok_iff, map, [],
  Distinct, ◌↔◌, ok, All, ◌≤◌, ◌≡◌,
}
use census.Declaration.Accounts.{uids, check_accounts_iff, AccountFits}
use census.Declaration.Groups.{
  check_bindings_iff, pair_of, BindingFits, GroupFits, check_groups_iff,
}

pub record IsValid (d : Declaration) : Type 0 where
  pub schema : d.schema ≤ 1
  pub version : 1 ≤ d.version
  pub range : d.defaults.uid_range.0 ≤ d.defaults.uid_range.1
  pub accounts : All (AccountFits d.defaults.uid_range.0 d.defaults.uid_range.1) d.role_accounts
  pub roles : Distinct (map (λ (a : RoleAccount). a.role) d.role_accounts)
  pub uids : Distinct (uids d.role_accounts)
  pub groups : All (GroupFits (managed_users d.role_accounts)) d.groups
  pub names : Distinct (map (λ (g : GroupSpec). g.name) d.groups)
  pub bindings : All (BindingFits (map (λ (g : GroupSpec). g.name) d.groups)) d.role_groups
  pub pairs : Distinct (map pair_of d.role_groups)

-- A declaration is accepted exactly when its schema is supported, its version is at least 1, its UID
-- range is not inverted, each account is created with a UID in the range or adopts a user with a
-- valid name, each group has a valid name and members and an adopted one no pin and only members
-- that Census manages, each binding names a valid role and a declared group, and no role, UID, group
-- name or binding occurs twice.
pub validate-ok_iff : (d : Declaration) → (validate d ≡ ok tt) ↔ IsValid d
unfolding validate
validate-ok_iff d =
    let min = d.defaults.uid_range.0 in
    let max = d.defaults.uid_range.1 in
    let accounts = check_accounts_iff min max [] [] d.role_accounts in
    let groups = check_groups_iff (managed_users d.role_accounts) [] d.groups in
    (
      λ h.
          let a = (guard-eq_ok_iff (ltb supported_schema d.schema) _ _ tt).0 h in
          let b = (guard-eq_ok_iff (ltb d.version 1) _ _ tt).0 a.1 in
          let c = (guard-eq_ok_iff (ltb max min) _ _ tt).0 b.1 in
          let s = (>>-eq_ok_iff (check_accounts min max [] [] d.role_accounts) _ tt).0 c.1 in
          let t = >>=-eq_ok (check_groups (managed_users d.role_accounts) [] d.groups) _ tt s.1 in
          let acc = accounts.0 s.0 in
          let grp = (groups t.0).0 t.1 in
          let bnd = (check_bindings_iff t.0 [] d.role_groups).0 t.2 in
          record {
            schema = ground (arith, a.0);
            version = ground (arith, b.0);
            range = ground (arith, c.0);
            accounts = acc.0;
            roles = (Fresh-Distinct_iff _).0 acc.1;
            uids = (Fresh-Distinct_iff _).0 acc.2;
            groups = grp.0;
            names = (Fresh-Distinct_iff _).0 grp.1;
            bindings = subst (λ l. All (BindingFits l) d.role_groups) grp.2 bnd.0;
            pairs = (Fresh-Distinct_iff _).0 bnd.1;
          },
      λ v.
          let names = map (λ (g : GroupSpec). g.name) d.groups in
          (guard-eq_ok_iff (ltb supported_schema d.schema) _ _ tt).1 (
            ground (arith, v.schema),
            (guard-eq_ok_iff (ltb d.version 1) _ _ tt).1 (
              ground (arith, v.version),
              (guard-eq_ok_iff (ltb max min) _ _ tt).1 (
                ground (arith, v.range),
                rw (
                  accounts.1 (
                    v.accounts,
                    (Fresh-Distinct_iff _).1 v.roles,
                    (Fresh-Distinct_iff _).1 v.uids,
                  ),
                  (groups names).1 (v.groups, (Fresh-Distinct_iff _).1 v.names, refl),
                  (check_bindings_iff names [] d.role_groups).1
                      (v.bindings, (Fresh-Distinct_iff _).1 v.pairs),
                ),
              ),
            ),
          ),
    )
