-- ===== src/Apply/Rollback/Undone.antt =====
-- The rollback of src/apply.rs, seen from the host: what the two restores bring back, and what is
-- tracked before the snapshot.
use census.Prelude.{
  arith, [], Bool-cases, ◌∷◌, sym, some, ◌≡◌, Text, List, inl, inr, refl, ok, err, Result, ◌⊎◌, ◌∙◌,
}
use census.Apply.Prepare.{ApplyInputs}
use census.Apply.Exec.{ApplyError, restored, rollback_outcome}
use census.Apply.Rollback.{claimed, RolledBack}
use census.Apply.Rollback.Setup.{BothRecoverable, Saved}
use census.Provision.{Provisioner, ProvisionError}
use census.Apply.Seams.{LawfulBackend, LawfulProvisioner, SameHost, Seam}
use census.FileAccess.{FileAccessError, FileAccessBackend}
use census.Apply.Run.{track_all}
use census.Apply.Rollback.Host.{Restored-SameHost}
use census.Apply.Rollback.Covered.{Within}

outcome-restored :
    (r : Result ProvisionError (Unit {0})) (q : Result FileAccessError (Unit {0}))
    → rollback_outcome r q ≡ restored
    → (r ≡ ok tt) × (q ≡ ok tt)
outcome-restored (ok u) (ok v) h = (refl, refl)
outcome-restored (ok u) (err e) h = cc
outcome-restored (err e) q h = cc

module _ {P F : Type 0} (provisioner : Provisioner P) (backend : FileAccessBackend F) where
  abbrev pub RestoresNeverFail : Type 0
  RestoresNeverFail =
      ((p : P) → (provisioner.restore p).0 ≡ ok tt) × ((f : F) → (backend.restore f).0 ≡ ok tt)

  -- The error says that the rollback succeeded, or no restore can fail.
  abbrev pub RestoresWork : ApplyError → Type 0
  RestoresWork e = (claimed e ≡ some restored) ⊎ RestoresNeverFail

pub SameHost-trans :
    {S A C : Type 0} (seam : Seam S A C) (s t u : S)
    → SameHost seam s t
    → SameHost seam t u
    → SameHost seam s u
SameHost-trans seam s t u h k = record {
  same_base = k.same_base ∙ h.same_base;
  same_view = λ q. k.same_view q ∙ h.same_view q;
}

pub SameHost-refl : {S A C : Type 0} (seam : Seam S A C) (s : S) → SameHost seam s s
SameHost-refl seam s = record { same_base = refl; same_view = λ q. refl }

module _ {P F A C D : Type 0} (sp : Seam P A C) (sf : Seam F (Unit {0}) D)
    (provisioner : Provisioner P) (backend : FileAccessBackend F) (inputs : ApplyInputs P)
    (lp : LawfulProvisioner sp inputs.sudoers_dir provisioner) (lf : LawfulBackend sf backend) where
  -- What is saved once both snapshots are there.
  abbrev pub saved_from : P → F → List Text → List Text → Saved P F A C D
  saved_from p f fragments paths = record {
    sp = sp;
    sf = sf;
    sudoers_dir = inputs.sudoers_dir;
    provisioner = provisioner;
    backend = backend;
    lp = lp;
    lf = lf;
    base = sp.base p;
    contents = sp.view p;
    acls = sf.view f;
    fragments = fragments;
    paths = paths;
  }

  abbrev pub Undone : P → F → ApplyError → P → F → Type 0
  Undone p f e q g = RestoresWork provisioner backend e → SameHost sp p q × SameHost sf f g

  both_ok :
      (J : P → F → Type 0) (e : ApplyError) (q : P) (g : F)
      (r : RolledBack provisioner backend J e q g)
      → RestoresWork provisioner backend e
      → ((provisioner.restore r.from_prov).0 ≡ ok tt) × ((backend.restore r.from_files).0 ≡ ok tt)
  both_ok J e q g r (inl h) = outcome-restored _ _ (sym (r.told restored h))
  both_ok J e q g r (inr h) = (h.0 r.from_prov, h.1 r.from_files)

  pub RolledBack-Undone :
      (p : P) (f : F) (fragments paths : List Text) (e : ApplyError) (q : P) (g : F)
      → RolledBack provisioner backend (BothRecoverable (saved_from p f fragments paths)) e q g
      → Undone p f e q g
  RolledBack-Undone p f fragments paths e q g r w =
      let both = both_ok _ e q g r w in
      (
        rw r.prov_restored (
            Restored-SameHost sp p r.from_prov _ fragments r.recoverable.0 (
              lp.restore_lem (sp.base p) (sp.view p) fragments r.from_prov r.recoverable.0.held
                both.0)),
        rw r.files_restored (
            Restored-SameHost sf f r.from_files _ paths r.recoverable.1
              (lf.restore_lem (sf.view f) paths r.from_files r.recoverable.1.held both.1)),
      )

  pub track_all-SameHost :
      (paths : List Text) (p : P) → SameHost sp p (track_all provisioner backend paths p)
  unfolding track_all
  track_all-SameHost [] p = SameHost-refl sp p
  track_all-SameHost (path ∷ paths) p =
      SameHost-trans sp p (provisioner.track_sudoers_backup path p) _ (lp.track_same path p)
        (track_all-SameHost paths (provisioner.track_sudoers_backup path p))

  track_all-keeps :
      (paths : List Text) (p : P)
      → Within sp (lp.tracked p) (lp.tracked (track_all provisioner backend paths p))
  unfolding track_all
  track_all-keeps [] p q h = h
  track_all-keeps (path ∷ paths) p q h =
      track_all-keeps paths (provisioner.track_sudoers_backup path p) q
        (lp.track_more path p q (ground (arith, h)))

  pub track_all-covers :
      (paths : List Text) (p : P)
      → Within sp paths (lp.tracked (track_all provisioner backend paths p))
  unfolding track_all
  track_all-covers [] p q h = cc
  track_all-covers (path ∷ paths) p q h = elim (Bool-cases (sp.reach path q)) [
    | inl e ↦
        track_all-keeps paths (provisioner.track_sudoers_backup path p) q
          (lp.track_more path p q (ground (arith, e)))
    | inr e ↦ track_all-covers paths (provisioner.track_sudoers_backup path p) q (rw e at h)
  ]
