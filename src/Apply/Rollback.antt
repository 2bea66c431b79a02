-- ===== src/Apply/Rollback.antt =====
-- Runs of the phases that either go on in a recoverable state or end with a rollback: the rules
-- for the steps of src/apply.rs.
pub mod Covered
pub mod Touched
pub mod TouchedGroups
pub mod Phases
pub mod PhasesGroups
pub mod Planned
pub mod Undone
pub mod Failed
pub mod Unharmed
pub mod Host
pub mod Setup
use census.Prelude.{
  [], none, ◌∷◌, some, Option, Text, List, ok, err, Result, In, inl, inr, refl, ◌≡◌,
}
use census.Apply.Exec.{
  or_phase_failure_file_access, or_phase_failure, restore_both, provision,
  phase_failure_file_access, phase_failure, access, abort_with_rollback, rollback_outcome,
  fail_corrupt_plan, for_each, after, ◌>>◌, ApplyError, RollbackOutcome, Exec, RunState,
}
use census.Provision.{ProvisionError, Provisioner}
use census.FileAccess.{FileAccessError, Effect, FileAccessBackend}

-- What an error says of the rollback; a file-access error says nothing.
unfoldable pub claimed : ApplyError → Option RollbackOutcome
claimed (ApplyError.phase name source rollback) = some rollback
claimed (ApplyError.corrupt_plan group rollback) = some rollback
claimed _ = none

module _ {P F : Type 0} (J : P → F → Type 0) (X : ApplyError → P → F → Type 0) where
  abbrev pub Ends : Result ApplyError (Unit {0}) → RunState P F → Type 0
  Ends (ok u) s = J s.prov s.files
  Ends (err e) s = X e s.prov s.files

  -- From a state with `J`, the step goes on with `J` or ends with `X`.
  abbrev pub Sound : Exec P F → Type 0
  Sound m = (s : RunState P F) → J s.prov s.files → Ends (m s).0 (m s).1

  Ends-after :
      (r : Result ApplyError (Unit {0})) (s : RunState P F) (k : Exec P F)
      → Ends r s
      → Sound k
      → Ends (after r s k).0 (after r s k).1
  Ends-after (ok u) s k h n = n s h
  Ends-after (err e) s k h n = h

  pub >>-Sound : (m k : Exec P F) → Sound m → Sound k → Sound (m >> k)
  >>-Sound m k a b s h = Ends-after (m s).0 (m s).1 k (a s h) b

  pub for_each-Sound :
      {A : Type 0} (f : A → Exec P F) (xs : List A)
      → ((x : A) → In x xs → Sound (f x))
      → Sound (for_each f xs)
  unfolding for_each
  for_each-Sound f [] h s j = j
  for_each-Sound f (x ∷ xs) h s j =
      >>-Sound (f x) (for_each f xs) (h x (inl refl)) (for_each-Sound f xs (λ y i. h y (inr i))) s j

module _ {P F : Type 0} (provisioner : Provisioner P) (backend : FileAccessBackend F)
    (J : P → F → Type 0) where
  -- Both seams were restored, once, from a state with `J`, and what the error says of it is true.
  pub record RolledBack (e : ApplyError) (p : P) (f : F) : Type 0 where
    pub from_prov : P
    pub from_files : F
    pub recoverable : J from_prov from_files
    pub prov_restored : p ≡ (provisioner.restore from_prov).1
    pub files_restored : f ≡ (backend.restore from_files).1
    pub told :
        (o : RollbackOutcome)
        → claimed e ≡ some o
        → o ≡ rollback_outcome (provisioner.restore from_prov).0 (backend.restore from_files).0

  abbrev pub Safe : Exec P F → Type 0
  Safe m = Sound J RolledBack m

  -- The state after both restores, with an error that tells the outcome or nothing.
  rolled_back :
      (e : ApplyError) (s : RunState P F)
      → J s.prov s.files
      → ((o : RollbackOutcome) → claimed e ≡ some o → o ≡ abort_with_rollback provisioner backend s)
      → RolledBack e
          (restore_both provisioner backend s).prov
          (restore_both provisioner backend s).files
  rolled_back e s h t = record {
    from_prov = s.prov;
    from_files = s.files;
    recoverable = h;
    prov_restored = refl;
    files_restored = refl;
    told = t;
  }

  pub fail_corrupt_plan-Safe : (group : Text) → Safe (fail_corrupt_plan provisioner backend group)
  unfolding fail_corrupt_plan claimed
  fail_corrupt_plan-Safe group s h = rolled_back _ s h (λ o e. cc)

  or_phase_failure-Safe :
      (name : Text) (r : Result ProvisionError (Unit {0}))
      → Safe (or_phase_failure provisioner backend name r)
  unfolding phase_failure claimed
  or_phase_failure-Safe name (ok u) s h = h
  or_phase_failure-Safe name (err source) s h = rolled_back _ s h (λ o e. cc)

  -- An operation of the provisioner that keeps the state recoverable.
  pub provision-Safe :
      (name : Text) (e : Effect ProvisionError P)
      → ((p : P) (f : F) → J p f → J (e p).1 f)
      → Safe (provision provisioner backend name e)
  unfolding provision
  provision-Safe name e k s h =
      or_phase_failure-Safe name (e s.prov).0 (record s { prov = (e s.prov).1 })
        (k s.prov s.files h)

  or_phase_failure_file_access-Safe :
      (r : Result FileAccessError (Unit {0}))
      → Safe (or_phase_failure_file_access provisioner backend r)
  unfolding phase_failure_file_access claimed
  or_phase_failure_file_access-Safe (ok u) s h = h
  or_phase_failure_file_access-Safe (err source) s h = rolled_back _ s h (λ o e. cc)

  pub access-Safe :
      (e : Effect FileAccessError F)
      → ((p : P) (f : F) → J p f → J p (e f).1)
      → Safe (access provisioner backend e)
  unfolding access
  access-Safe e k s h =
      or_phase_failure_file_access-Safe (e s.files).0 (record s { files = (e s.files).1 })
        (k s.prov s.files h)
