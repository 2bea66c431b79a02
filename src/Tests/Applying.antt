-- ===== src/Tests/Applying.antt =====
-- An apply, run on a small host.
use census.Prelude.Map
use census.Prelude.{
  ok, inl, ◌≢◌, ◌↔◌, true, none, ◌∷◌, ℕ, refl, is_empty, err, some, false, codes, [], Option, ◌≡◌,
  str_eq, Text, List, In,
}
use census.Lockout.{
  would_lock_out, is_login_capable_shell, keeps_login, surviving_login_accounts, gate,
  LockoutContext,
}
use census.State.{ManagedGroup, ManagedAccount}
use census.Prelude.Map.{Map}
use census.Plan.{Action, plan_is_empty, Plan}
use census.Apply.Accounts.{record_for, retained, read_back, unchanged, build_managed_set}
use census.Plan.Declared.{diff_resolved_groups, retire, is_declared_group}
use census.Apply.Reconcile.{
  action_name, untouched_login_shells, DeferredDelete, reconcile_live_sessions,
}
use census.Model.{created, ResolvedAccount}
use census.Tests.Fixtures.{
  live_groups, carol_online, registry, group_record, bob, alice_record, alice,
}
use census.Plan.Accounts.{is_declared, delete_actions, target_actions, diff_fields, diff}
use census.Sessions.{matches}
use census.Apply.Groups.{build_managed_groups}
use census.Prelude.{Distinct}
use census.Apply.Groups.Settled.{required_group-retired_again, next_groups-retirements}
use census.Apply.Accounts.Settled.{written_names, next_plan-empty, next_plan-deletes}
use census.Apply.Accounts.Versions.{unchanged_iff_no_diff}
use census.Apply.Reconcile.Deferred.{reconcile-deferred_iff, IsLive}
use census.Apply.Reconcile.Safety.{reconcile-actions_iff, Stays}
use census.Lockout.Gate.{gate-err_iff, LoginSurvives}
use census.Apply.Reconcile.Lockout.{gate-deferred}

abbrev removal : List Action
removal = Action.create bob ∷ Action.delete (codes "carol") ∷ []

abbrev removal_plan : Plan
removal_plan = record { actions = removal; group_actions = [] }

reconcile_test :
    (reconcile_live_sessions removal registry carol_online).actions ≡ Action.create bob ∷ []
unfolding reconcile_live_sessions matches Map.get str_eq
reconcile_test = refl

abbrev strict : LockoutContext
strict = record { rescue_present = false; risk_acknowledged = false }

gate-err_iff_example : (gate removal_plan strict [] ≡ err would_lock_out) ↔ (
    (removal ≢ [])
    × (strict.rescue_present ≡ false)
    × (strict.risk_acknowledged ≡ false)
    × ¬ LoginSurvives removal_plan [])
gate-err_iff_example = gate-err_iff removal_plan strict []

reconcile-deferred_iff_example :
    In
      (record { name = codes "carol"; uid = 3003 })
      (reconcile_live_sessions removal registry carol_online).deferred
    ↔ (In (Action.delete (codes "carol")) removal
        × IsLive registry carol_online (codes "carol") 3003)
reconcile-deferred_iff_example =
    reconcile-deferred_iff registry carol_online removal
      (record { name = codes "carol"; uid = 3003 })

reconcile-actions_iff_example :
    In (Action.create bob) (reconcile_live_sessions removal registry carol_online).actions
    ↔ (In (Action.create bob) removal × Stays registry carol_online (Action.create bob))
reconcile-actions_iff_example =
    reconcile-actions_iff registry carol_online removal (Action.create bob)

gate_test : gate removal_plan strict (untouched_login_shells removal registry) ≡ ok tt
unfolding gate plan_is_empty surviving_login_accounts keeps_login is_login_capable_shell
    untouched_login_shells action_name str_eq
gate_test = refl

unchanged_iff_no_diff_example :
    unchanged alice_record alice ≡ is_empty (diff_fields alice alice_record)
unchanged_iff_no_diff_example = unchanged_iff_no_diff alice_record alice

abbrev alice_only : List ResolvedAccount
alice_only = alice ∷ []

alice-Distinct : Distinct (written_names (build_managed_set alice_only 8 registry []))
unfolding build_managed_set retained record_for
alice-Distinct = (λ h. h, tt)

next_plan-empty_example :
    plan_is_empty (diff alice_only (read_back (build_managed_set alice_only 8 registry []))) ≡ true
next_plan-empty_example = next_plan-empty alice_only 8 registry alice-Distinct

abbrev put_off : List DeferredDelete
put_off = (record { name = codes "carol"; uid = 3003 }) ∷ []

carol-Distinct : Distinct (written_names (build_managed_set [] 8 registry put_off))
unfolding build_managed_set retained record_for Map.get str_eq
carol-Distinct = (λ h. h, tt)

abbrev after_deferral : Map ManagedAccount
after_deferral = read_back (build_managed_set [] 8 registry put_off)

carol_delete : In (Action.delete (codes "carol")) (diff [] after_deferral).actions
unfolding build_managed_set retained record_for Map.get str_eq diff target_actions delete_actions
    is_declared read_back Map.collect Map.insert
carol_delete = inl refl

next_plan-deletes_example :
    (r : ManagedAccount) × In r (retained put_off registry)
    × (Action.delete (codes "carol") ≡ Action.delete r.name)
next_plan-deletes_example =
    next_plan-deletes [] 8 registry put_off carol-Distinct (Action.delete (codes "carol"))
      carol_delete

-- `audit` is required by a role, was created by an earlier run, and is not declared.
abbrev audit : Text
audit = codes "audit"

abbrev audit_registry : Map ManagedGroup
audit_registry = (audit, group_record audit none created) ∷ []

abbrev audit_required : Map (Option ℕ)
audit_required = (audit, none) ∷ []

abbrev next_audit : Map ManagedGroup
next_audit = build_managed_groups audit_required [] audit_registry [] [] 8 live_groups

audit-get : Map.get audit audit_registry ≡ some (group_record audit none created)
unfolding Map.get str_eq
audit-get = refl

audit-contains_key : Map.contains_key audit audit_required ≡ true
unfolding Map.contains_key str_eq
audit-contains_key = refl

audit_undeclared : is_declared_group [] audit ≡ false
unfolding is_declared_group
audit_undeclared = refl

required_group-retired_again_example :
    (Map.get audit next_audit ≡ some (group_record audit none created))
    × In (retire audit created) (diff_resolved_groups [] next_audit)
required_group-retired_again_example =
    required_group-retired_again audit_required [] audit_registry [] [] 8 live_groups audit
      (group_record audit none created) (tt, tt) audit-get audit-contains_key audit_undeclared

audit_delete : In (retire audit created) (diff_resolved_groups [] next_audit)
audit_delete = required_group-retired_again_example.1

next_groups-retirements_example :
    (n : Text) × (mg : ManagedGroup) × In (n, mg) next_audit
    × (is_declared_group [] n ≡ false)
    × (retire audit created ≡ retire n mg.provenance)
next_groups-retirements_example =
    next_groups-retirements audit_required [] audit_registry [] [] 8 live_groups tt
      (retire audit created) audit_delete

abbrev left_plan : Plan
left_plan = record {
  actions = (reconcile_live_sessions removal registry carol_online).actions;
  group_actions = [];
}

gate-deferred_example :
    gate left_plan strict (untouched_login_shells left_plan.actions registry) ≡ ok tt
gate-deferred_example = gate-deferred registry carol_online removal_plan [] strict gate_test
