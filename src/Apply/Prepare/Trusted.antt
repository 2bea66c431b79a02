-- ===== src/Apply/Prepare/Trusted.antt =====
-- The trust gate of `run` (src/apply.rs).
use census.Prelude.{
  ◌∙◌, ok-injective, sym, ap, any, map, ◌>>=◌, err, ◌≡◌, Result, ok, Gives, >>=-Gives, >>=-eq_ok,
}
use census.Apply.Prepare.{
  live_or_refuse, inspect_now, check_routes, map_err, ApplyInputs, Prepared, prepare,
  mode_or_refuse,
}
use census.Trust.{
  not_trusted, trusted, verify_trust, TrustDecision, mode_of, TrustMode, TrustSource,
}
use census.Provision.{Provisioner}
use census.FileAccess.{FileAccessBackend}
use census.Apply.Exec.{
  lockout_error, group_plan, declaration_error, resolve_error, trust_error, ApplyError,
}
use census.Declaration.Gather.{required_groups}
use census.Plan.Groups.{diff_groups_via_inspector}
use census.Plan.{is_destructive}
use census.Plan.Accounts.{diff}
use census.Lockout.{gate}

module _ {Key P F : Type 0} (sys : TrustSource Key) (provisioner : Provisioner P)
    (backend : FileAccessBackend F) (inputs : ApplyInputs P) where
  mode-trusted :
      (d : TrustDecision) (mode : TrustMode)
      → mode_or_refuse (mode_of d) ≡ ok mode
      → d ≡ trusted mode
  unfolding mode_of
  mode-trusted (trusted m) mode h = cc
  mode-trusted not_trusted mode h = cc

  map_err-ok : {E D A : Type 0} (g : E → D) (r : Result E A) (a : A) → map_err g r ≡ ok a → r ≡ ok a
  map_err-ok g (ok b) a h = cc
  map_err-ok g (err e) a h = cc

  abbrev HasMode : TrustMode → Prepared → Type 0
  HasMode mode prep = prep.trust_mode ≡ mode

  pub prepare-trusted :
      (p : P) (prep : Prepared)
      → prepare sys provisioner backend inputs p ≡ ok prep
      → verify_trust sys inputs.declaration inputs.declaration_bytes inputs.trust
        ≡ ok (trusted prep.trust_mode)
  unfolding prepare
  prepare-trusted p prep h =
      let d =
        >>=-eq_ok
          (map_err trust_error
            (verify_trust sys inputs.declaration inputs.declaration_bytes inputs.trust))
          _ prep h in
      let m = >>=-eq_ok (mode_or_refuse (mode_of d.0)) _ prep d.2 in
      let same =
        (step m.0 (map_err resolve_error (inputs.resolve inputs.declaration)) _ λ targets.
            step m.0 (map_err resolve_error (inputs.resolve_groups inputs.declaration)) _ λ groups.
              step m.0 (check_routes backend.capabilities (map (λ t. t.file_grants) targets.0)) _
                λ u.
                  step m.0 (check_routes backend.capabilities (map (λ g. g.file_grants) groups.0)) _
                    λ u.
                      step m.0
                        (map_err declaration_error (required_groups inputs.declaration targets.0)) _
                        λ required.
                          step m.0
                            (map_err group_plan (
                              diff_groups_via_inspector required inputs.state.groups
                                (inspect_now sys provisioner backend inputs.inspector p)))
                            _
                            λ group_actions.
                              step m.0
                                (live_or_refuse
                                  (any is_destructive
                                    (diff targets.0 inputs.state.accounts).actions)
                                  inputs.live)
                                _
                                λ live.
                                  step m.0 (map_err lockout_error (gate _ inputs.lockout _)) _
                                    λ u q e.
                                      ap (λ (r : Prepared). r.trust_mode) (sym (ok-injective e)))
          prep m.2 in
      rw same (map_err-ok trust_error _ d.0 d.1 ∙ ap ok (mode-trusted d.0 m.0 m.1))
    where
      step :
          {B : Type 0} (mode : TrustMode) (m : Result ApplyError B)
          (f : B → Result ApplyError Prepared)
          → ((b : B) → Gives (HasMode mode) (f b))
          → Gives (HasMode mode) (m >>= f)
      step mode m f k = >>=-Gives (HasMode mode) m f k
