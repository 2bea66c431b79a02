-- ===== src/Apply/Rollback/Failed.antt =====
-- Failed apply runs of src/apply.rs leave the host as it was.
use census.Prelude.{◌∷◌, ◌≡◌, [], Text, List, inl, inr, refl, ok, err, Result}
use census.Apply.Exec.{LogLine, RunState, Exec, ApplyError, ◌>>◌}
use census.Apply.Prepare.{ApplyInputs, Prepared}
use census.Apply.Rollback.Undone.{
  track_all-covers, track_all-SameHost, SameHost-trans, SameHost-refl, Undone, saved_from,
  RolledBack-Undone,
}
use census.Apply.Seams.{SameHost, RespectsPaths, LawfulBackend, LawfulProvisioner, Seam}
use census.Provision.{ProvisionError, Provisioner}
use census.FileAccess.{FileAccessError, FileAccessBackend}
use census.Apply.Prepare.Plans.{FromTargets}
use census.Apply.Rollback.Setup.{BothRecoverable, Saved}
use census.Apply.Run.{
  Outcome, track_all, start, conclude, execute, snapshot_outcome, files_outcome, mutate,
  file_access_paths, sudoers_paths, snapshot_files,
}
use census.Apply.Rollback.{claimed, RolledBack, Ends}
use census.Apply.Rollback.Covered.{Within}
use census.Apply.Rollback.Host.{Restored-SameHost, Recoverable}
use census.Apply.Rollback.Planned.{mutate-SafePhase}

module _ {P F A C D : Type 0} (sp : Seam P A C) (sf : Seam F (Unit {0}) D)
    (provisioner : Provisioner P) (backend : FileAccessBackend F) (inputs : ApplyInputs P)
    (lp : LawfulProvisioner sp inputs.sudoers_dir provisioner) (lf : LawfulBackend sf backend)
    (respects_fragments : RespectsPaths sp) (respects_paths : RespectsPaths sf) (prep : Prepared)
    (from_targets : FromTargets prep) (f : F) (fresh : sf.holds tt (sf.view f) [] f) where
  abbrev UndoneAt : P → Result ApplyError (Unit {0}) → RunState P F → Type 0
  UndoneAt p (ok u) s = Unit
  UndoneAt p (err e) s = Undone sp sf provisioner backend inputs lp lf p f e s.prov s.files

  abbrev Fails : P → Exec P F → RunState P F → Type 0
  Fails p m s = UndoneAt p (m s).0 (m s).1

  abbrev after_tracking : P → List Text → Saved P F A C D
  after_tracking p paths =
      saved_from sp sf provisioner backend inputs lp lf p f (lp.tracked p) paths

  from_RolledBack :
      (p : P) (paths : List Text) (r : Result ApplyError (Unit {0})) (s : RunState P F)
      → Ends
          (BothRecoverable (after_tracking p paths))
          (RolledBack provisioner backend (BothRecoverable (after_tracking p paths)))
          r
          s
      → UndoneAt p r s
  from_RolledBack p paths (ok u) s h = tt
  from_RolledBack p paths (err e) s h =
      RolledBack-Undone sp sf provisioner backend inputs lp lf p f (lp.tracked p) paths e s.prov
        s.files h

  mutate-Fails :
      (p : P) (paths : List Text) (s : RunState P F)
      → Within sp (sudoers_paths inputs prep) (lp.tracked p)
      → Within sf (file_access_paths inputs prep) paths
      → BothRecoverable (after_tracking p paths) s.prov s.files
      → Fails p (mutate provisioner backend inputs prep) s
  mutate-Fails p paths s k w j = from_RolledBack p paths _ _ (
      mutate-SafePhase (after_tracking p paths) respects_fragments respects_paths inputs prep refl k
        w from_targets s j)

  files_outcome-Fails :
      (p : P) (paths : List Text) (r : Result FileAccessError (Unit {0})) (s : RunState P F)
      → Within sp (sudoers_paths inputs prep) (lp.tracked p)
      → Within sf (file_access_paths inputs prep) paths
      → Recoverable sp (sp.base p) (sp.view p) (lp.tracked p) s.prov
      → SameHost sf f s.files
      → (r ≡ ok tt → sf.holds tt (sf.view f) paths s.files)
      → Fails p (files_outcome provisioner backend r >> mutate provisioner backend inputs prep) s
  unfolding claimed
  files_outcome-Fails p paths (ok u) s k w j same h =
      mutate-Fails p paths s k w (j, record { held = h refl; rest = λ q n. same.same_view q })
  files_outcome-Fails p paths (err e) s k w j same h = λ z. elim z [
    | inl claim ↦ absurd (cc claim)
    | inr never ↦ (
      Restored-SameHost sp p s.prov _ (lp.tracked p) j
          (lp.restore_lem (sp.base p) (sp.view p) (lp.tracked p) s.prov j.held (never.0 s.prov)),
      same,
    )
  ]

  snapshot_files-Fails :
      (p : P) (paths : List Text) (s : RunState P F)
      → s.files ≡ f
      → Within sp (sudoers_paths inputs prep) (lp.tracked p)
      → Within sf (file_access_paths inputs prep) paths
      → Recoverable sp (sp.base p) (sp.view p) (lp.tracked p) s.prov
      → Fails p
          (snapshot_files provisioner backend paths >> mutate provisioner backend inputs prep)
          s
  unfolding snapshot_files
  snapshot_files-Fails p [] s e k w j =
      mutate-Fails p [] s k w (j, rw e (record { held = fresh; rest = λ q n. refl }))
  snapshot_files-Fails p (x ∷ paths) s e k w j =
      files_outcome-Fails p (x ∷ paths) (backend.snapshot (x ∷ paths) s.files).0
        (record s { files = (backend.snapshot (x ∷ paths) s.files).1 }) k w j
        (rw e (lf.snapshot_same (x ∷ paths) f)) (rw e (lf.snapshot_holds (x ∷ paths) f))

  snapshot_outcome-Fails :
      (p : P) (paths : List Text) (r : Result ProvisionError (Unit {0})) (s : RunState P F)
      → s.files ≡ f
      → Within sp (sudoers_paths inputs prep) (lp.tracked p)
      → Within sf (file_access_paths inputs prep) paths
      → SameHost sp p s.prov
      → (r ≡ ok tt → sp.holds (sp.base p) (sp.view p) (lp.tracked p) s.prov)
      → Fails p
          (snapshot_outcome provisioner backend r
            >> snapshot_files provisioner backend paths
            >> mutate provisioner backend inputs prep)
          s
  snapshot_outcome-Fails p paths (ok u) s e k w same h =
      snapshot_files-Fails p paths s e k w
        (record { held = h refl; rest = λ q n. same.same_view q })
  snapshot_outcome-Fails p paths (err x) s e k w same h = λ z. (same, rw e (SameHost-refl sf f))

  before_tracking :
      (p p1 : P) (r : Result ApplyError (Unit {0})) (s : RunState P F)
      → SameHost sp p p1
      → UndoneAt p1 r s
      → UndoneAt p r s
  before_tracking p p1 (ok u) s same h = tt
  before_tracking p p1 (err e) s same h =
      λ z. let back = h z in (SameHost-trans sp p p1 s.prov same back.0, back.1)

  -- The whole of it, from the tracking on.
  execute-Fails :
      (p : P) (log : List LogLine)
      → UndoneAt p
          (execute provisioner backend inputs prep (start p f log)).0
          (execute provisioner backend inputs prep (start p f log)).1
  unfolding execute
  execute-Fails p log =
      let p1 = track_all provisioner backend (sudoers_paths inputs prep) p in
      let tracked_same =
        track_all-SameHost sp sf provisioner backend inputs lp lf (sudoers_paths inputs prep) p in
      before_tracking p p1 _ _ tracked_same (
        snapshot_outcome-Fails p1 (file_access_paths inputs prep) (provisioner.snapshot p1).0
          (record (start p f log) { prov = (provisioner.snapshot p1).1 }) refl
          (track_all-covers sp sf provisioner backend inputs lp lf (sudoers_paths inputs prep) p)
          (λ q h. h) (lp.snapshot_same p1) (lp.snapshot_holds p1))

  -- What a run gives back, if it fails, is undone.
  abbrev RunUndone : P → Outcome P F → Type 0
  RunUndone p (ok report, w) = Unit
  RunUndone p (err e, (q, g)) = Undone sp sf provisioner backend inputs lp lf p f e q g

  conclude-RunUndone :
      (p : P) (r : Result ApplyError (Unit {0})) (s : RunState P F)
      → UndoneAt p r s
      → RunUndone p (conclude inputs prep (r, s))
  conclude-RunUndone p (ok u) s h = tt
  conclude-RunUndone p (err e) s h = h

  pub execute-RunUndone :
      (p : P) (log : List LogLine)
      → RunUndone p (conclude inputs prep (execute provisioner backend inputs prep (start p f log)))
  execute-RunUndone p log = conclude-RunUndone p _ _ (execute-Fails p log)
