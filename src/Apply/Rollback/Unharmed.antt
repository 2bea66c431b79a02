-- ===== src/Apply/Rollback/Unharmed.antt =====
-- `run` of src/apply.rs as a whole: what a run that fails leaves behind.
use census.Prelude.{subst, Bool-cases, ◌≡◌, Gives, [], inl, inr, refl, ok, err, Result}
use census.Apply.Exec.{ApplyError}
use census.Apply.Prepare.{ApplyInputs, Prepared, prepare}
use census.Apply.Rollback.Undone.{RestoresWork, Undone, SameHost-refl}
use census.Trust.{TrustSource}
use census.Apply.Seams.{SameHost, RespectsPaths, LawfulBackend, LawfulProvisioner, Seam}
use census.Provision.{Provisioner}
use census.FileAccess.{FileAccessBackend}
use census.Apply.Run.{nothing_to_do, run_prepared, run, Outcome}
use census.Apply.Prepare.Plans.{prepare-FromTargets, FromTargets}
use census.Apply.Rollback.Failed.{execute-RunUndone}

module _ {Key P F A C D : Type 0} (sys : TrustSource Key) (sp : Seam P A C)
    (sf : Seam F (Unit {0}) D) (provisioner : Provisioner P) (backend : FileAccessBackend F)
    (inputs : ApplyInputs P) (lp : LawfulProvisioner sp inputs.sudoers_dir provisioner)
    (lf : LawfulBackend sf backend) (respects_fragments : RespectsPaths sp)
    (respects_paths : RespectsPaths sf) where
  abbrev FailedUndone : P → F → Outcome P F → Type 0
  FailedUndone p f (ok report, w) = Unit
  FailedUndone p f (err e, (q, g)) = Undone sp sf provisioner backend inputs lp lf p f e q g

  run_prepared-FailedUndone :
      (p : P) (f : F) (fresh : sf.holds tt (sf.view f) [] f) (r : Result ApplyError Prepared)
      → Gives FromTargets r
      → FailedUndone p f (run_prepared sys provisioner backend inputs p f r)
  run_prepared-FailedUndone p f fresh (err e) h = λ z. (SameHost-refl sp p, SameHost-refl sf f)
  run_prepared-FailedUndone p f fresh (ok prep) h = elim (Bool-cases (nothing_to_do prep)) [
    | inl e ↦ rw e tt
    | inr e ↦ rw e (
        execute-RunUndone sp sf provisioner backend inputs lp lf respects_fragments respects_paths
          prep (h prep refl) f fresh p prep.log)
  ]

  -- Given a provisioner and a file-access backend that touch only what their operations name and
  -- restore what their snapshots hold, and a backend that has no older snapshot: a run that fails,
  -- at whatever point, leaves the auth database, every sudoers fragment and the access of every path
  -- as it found them, if its error claims a completed rollback or no restore can fail.
  pub run-unharmed :
      (p : P) (f : F) (e : ApplyError) (q : P) (g : F)
      → sf.holds tt (sf.view f) [] f
      → run sys provisioner backend inputs p f ≡ (err e, (q, g))
      → RestoresWork provisioner backend e
      → SameHost sp p q × SameHost sf f g
  unfolding run
  run-unharmed p f e q g fresh h = subst (FailedUndone p f) h (
      run_prepared-FailedUndone p f fresh (prepare sys provisioner backend inputs p)
        (prepare-FromTargets sys provisioner backend inputs p))
