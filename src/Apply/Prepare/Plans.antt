-- ===== src/Apply/Prepare/Plans.antt =====
-- What the first half of `run` (src/apply.rs) plans comes from what it resolved.
use census.Prelude.{
  any, map, ◌>>=◌, Result, ok-injective, subst, some, ◌≡◌, List, In, Gives, >>=-Gives,
}
use census.Apply.Prepare.{
  live_or_refuse, inspect_now, check_routes, mode_or_refuse, map_err, ApplyInputs, Prepared,
  prepare,
}
use census.Plan.{is_destructive, Action}
use census.Model.{ResolvedAccount}
use census.Trust.{mode_of, verify_trust, TrustSource}
use census.Prelude.Map.{Map}
use census.Provision.{Provisioner}
use census.Apply.Rollback.Phases.{account_of}
use census.FileAccess.{FileAccessBackend}
use census.State.{ManagedAccount}
use census.Sessions.{LiveSessions}
use census.Apply.Reconcile.{reconcile_live_sessions}
use census.Plan.Accounts.{diff}
use census.Plan.Accounts.Actions.{diff-actions_iff, Justified}
use census.Apply.Reconcile.Safety.{reconcile-actions_iff}
use census.Apply.Exec.{
  lockout_error, group_plan, declaration_error, resolve_error, trust_error, ApplyError,
}
use census.Declaration.Gather.{required_groups}
use census.Plan.Groups.{diff_groups_via_inspector}
use census.Lockout.{gate}

-- Every account that an action of the plan leaves behind is a target.
abbrev pub FromTargets : Prepared → Type 0
FromTargets prep =
    (a : Action) (acct : ResolvedAccount)
    → In a prep.plan.actions
    → account_of a ≡ some acct
    → In acct prep.targets

planned_account :
    (targets : List ResolvedAccount) (managed : Map ManagedAccount) (live : LiveSessions)
    (a : Action) (acct : ResolvedAccount)
    → In a (reconcile_live_sessions (diff targets managed).actions managed live).actions
    → account_of a ≡ some acct
    → In acct targets
planned_account targets managed live a acct i e =
    justified a
      ((diff-actions_iff targets managed a).0
        ((reconcile-actions_iff managed live (diff targets managed).actions a).0 i).0)
      e
  where
    justified :
        (a : Action) → Justified targets managed a → account_of a ≡ some acct → In acct targets
    justified (Action.create t) j e = let q : t ≡ acct = cc e in subst (λ x. In x targets) q j.0
    justified (Action.update t changes) j e =
        let q : t ≡ acct = cc e in subst (λ x. In x targets) q j.listed
    justified (Action.delete n) j e = cc

module _ {Key P F : Type 0} (sys : TrustSource Key) (provisioner : Provisioner P)
    (backend : FileAccessBackend F) (inputs : ApplyInputs P) (p : P) where
  pub prepare-FromTargets : Gives FromTargets (prepare sys provisioner backend inputs p)
  unfolding prepare
  prepare-FromTargets =
      step
        (map_err trust_error
          (verify_trust sys inputs.declaration inputs.declaration_bytes inputs.trust))
        _
        λ decision. step (mode_or_refuse (mode_of decision)) _ λ mode.
          step (map_err resolve_error (inputs.resolve inputs.declaration)) _ λ targets.
            step (map_err resolve_error (inputs.resolve_groups inputs.declaration)) _ λ groups.
              step (check_routes backend.capabilities (map (λ t. t.file_grants) targets.0)) _ λ u.
                step (check_routes backend.capabilities (map (λ g. g.file_grants) groups.0)) _ λ u.
                  step (map_err declaration_error (required_groups inputs.declaration targets.0)) _
                    λ required.
                      step
                        (map_err group_plan (
                          diff_groups_via_inspector required inputs.state.groups
                            (inspect_now sys provisioner backend inputs.inspector p)))
                        _
                        λ group_actions.
                          step
                            (live_or_refuse
                              (any is_destructive (diff targets.0 inputs.state.accounts).actions)
                              inputs.live)
                            _
                            λ live.
                              step (map_err lockout_error (gate _ inputs.lockout _)) _ λ u prep h.
                                subst FromTargets (ok-injective h)
                                  (planned_account targets.0 inputs.state.accounts live)
    where
      step :
          {B : Type 0} (m : Result ApplyError B) (f : B → Result ApplyError Prepared)
          → ((b : B) → Gives FromTargets (f b))
          → Gives FromTargets (m >>= f)
      step m f k = >>=-Gives FromTargets m f k
