-- ===== src/Apply/Admitted.antt =====
-- What a successful `run` (src/apply.rs) was admitted by.
use census.Prelude.{subst, sym, ap, ◌∙◌, ◌≡◌, Result, refl, ok, err, Bool-cases, inl, inr}
use census.Apply.Prepare.{ApplyInputs, Prepared, prepare}
use census.Apply.Prepare.Trusted.{prepare-trusted}
use census.Apply.Run.{conclude, nothing_to_do, run_prepared, Outcome, ApplyReport, run, report}
use census.Trust.{trusted, verify_trust, TrustSource}
use census.Provision.{Provisioner}
use census.FileAccess.{FileAccessBackend}
use census.Apply.Exec.{RunState, ApplyError}

module _ {Key P F : Type 0} (sys : TrustSource Key) (provisioner : Provisioner P)
    (backend : FileAccessBackend F) (inputs : ApplyInputs P) where
  -- The report is of what was prepared.
  abbrev Reports : Prepared → Outcome P F → Type 0
  Reports prep (ok r, w) = r.trust_mode ≡ prep.trust_mode
  Reports prep (err e, w) = Unit

  conclude-Reports :
      (prep : Prepared) (r : Result ApplyError (Unit {0})) (s : RunState P F)
      → Reports prep (conclude inputs prep (r, s))
  unfolding report
  conclude-Reports prep (ok u) s = refl
  conclude-Reports prep (err e) s = tt

  run_prepared-Reports :
      (p : P) (f : F) (prep : Prepared)
      → Reports prep (run_prepared sys provisioner backend inputs p f (ok prep))
  unfolding report
  run_prepared-Reports p f prep = elim (Bool-cases (nothing_to_do prep)) [
    | inl e ↦ rw e refl
    | inr e ↦ rw e (conclude-Reports prep _ _)
  ]

  -- A run that succeeds had a declaration that the trust gate admitted, in the mode that the report
  -- gives.
  pub run-trusted :
      (p : P) (f : F) (r : ApplyReport) (w : P × F)
      → run sys provisioner backend inputs p f ≡ (ok r, w)
      → verify_trust sys inputs.declaration inputs.declaration_bytes inputs.trust
        ≡ ok (trusted r.trust_mode)
  unfolding run
  run-trusted p f r w =
      go (prepare sys provisioner backend inputs p)
        (prepare-trusted sys provisioner backend inputs p)
    where
      go :
          (m : Result ApplyError Prepared)
          → ((prep : Prepared)
              → m ≡ ok prep
              → verify_trust sys inputs.declaration inputs.declaration_bytes inputs.trust
                ≡ ok (trusted prep.trust_mode))
          → run_prepared sys provisioner backend inputs p f m ≡ (ok r, w)
          → verify_trust sys inputs.declaration inputs.declaration_bytes inputs.trust
            ≡ ok (trusted r.trust_mode)
      go (err e) t h = cc
      go (ok prep) t h =
          t prep refl
          ∙ ap (λ m. ok (trusted m)) (sym (subst (Reports prep) h (run_prepared-Reports p f prep)))
