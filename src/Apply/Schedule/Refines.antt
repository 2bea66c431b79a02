-- ===== src/Apply/Schedule/Refines.antt =====
-- When a step of src/apply.rs does what a list of operations says: the rules for single steps.
use mathlib.Core.List.{append-nil}
use census.Prelude.{
  sym, ap, ◌∙◌, subst, none, [], ◌∷◌, ◌≡◌, some, Option, Text, List, ok, err, Result, refl, ◌++◌,
}
use census.Apply.Exec.{
  or_phase_failure_file_access, then_if_ok, phase_failure_file_access, fail_corrupt_plan, and_then,
  access, or_phase_failure, after, provision, phase_failure, for_each, RunState, Exec, ◌>>◌,
  ApplyError,
}
use census.Apply.Schedule.{
  on_files, on_system, perform, missing_group, continue, access_fault, provision_fault, Performed,
  Op, Fault, perform_all, concat_map,
}
use census.Provision.{ProvisionError, Provisioner}
use census.FileAccess.{FileAccessError, Effect, FileAccessBackend}
use census.Apply.Prepare.{map_err}

-- The fault that an error reports.
unfoldable pub fault_of : ApplyError → Option Fault
fault_of (ApplyError.phase name source rollback) = some (provision_fault source)
fault_of (ApplyError.file_access source) = some (access_fault source)
fault_of (ApplyError.corrupt_plan group rollback) = some (missing_group group)
fault_of _ = none

module _ {P F : Type 0} (provisioner : Provisioner P) (backend : FileAccessBackend F) where
  -- The list stopped at a fault; the run reports it, and has restored both seams from there.
  pub record Stopped (e : ApplyError) (q : P) (g : F) (r : Performed provisioner backend)
      : Type 0 where
    pub fault : Fault
    pub stopped : r.0 ≡ err fault
    pub cause : fault_of e ≡ some fault
    pub prov_restored : q ≡ (provisioner.restore r.1.0).1
    pub files_restored : g ≡ (backend.restore r.1.1).1

  -- The run and the list end alike.
  abbrev pub Alike :
      Result ApplyError (Unit {0}) → RunState P F → Performed provisioner backend → Type 0
  Alike (ok u) s r = r ≡ (ok tt, (s.prov, s.files))
  Alike (err e) s r = Stopped e s.prov s.files r

  abbrev pub Refines : Exec P F → List Op → Type 0
  Refines m ops =
      (s : RunState P F)
      → Alike (m s).0 (m s).1 (perform_all provisioner backend ops s.prov s.files)

  continue-err :
      (r : Performed provisioner backend) (k : P → F → Performed provisioner backend) (e : Fault)
      → r.0 ≡ err e
      → continue provisioner backend r k ≡ r
  continue-err (ok u, w) k e h = cc
  continue-err (err x, w) k e h = refl

  continue_assoc :
      (r : Performed provisioner backend) (k l : P → F → Performed provisioner backend)
      → continue provisioner backend (continue provisioner backend r k) l
        ≡ continue provisioner backend r (λ p f. continue provisioner backend (k p f) l)
  continue_assoc (ok u, w) k l = refl
  continue_assoc (err e, w) k l = refl

  continue-ext :
      (r : Performed provisioner backend) (k l : P → F → Performed provisioner backend)
      → ((p : P) (f : F) → k p f ≡ l p f)
      → continue provisioner backend r k ≡ continue provisioner backend r l
  continue-ext (ok u, (p, f)) k l h = h p f
  continue-ext (err e, w) k l h = refl

  perform_all-append :
      (xs ys : List Op) (p : P) (f : F)
      → perform_all provisioner backend (xs ++ ys) p f
        ≡ continue provisioner backend
            (perform_all provisioner backend xs p f)
            (perform_all provisioner backend ys)
  unfolding perform_all
  perform_all-append [] ys p f = refl
  perform_all-append (x ∷ xs) ys p f =
      continue-ext (perform provisioner backend x p f) _ _ (perform_all-append xs ys)
      ∙ sym (continue_assoc (perform provisioner backend x p f) _ _)

  Alike-after :
      (r : Result ApplyError (Unit {0})) (s : RunState P F) (k : Exec P F) (ys : List Op)
      (t : Performed provisioner backend)
      → Alike r s t
      → Refines k ys
      → Alike
          (after r s k).0
          (after r s k).1
          (continue provisioner backend t (perform_all provisioner backend ys))
  Alike-after (ok u) s k ys t h n = rw h (n s)
  Alike-after (err e) s k ys t h n = rw (continue-err t _ h.fault h.stopped) h

  pub >>-Refines :
      (m k : Exec P F) (xs ys : List Op) → Refines m xs → Refines k ys → Refines (m >> k) (xs ++ ys)
  >>-Refines m k xs ys a b s =
      rw (perform_all-append xs ys s.prov s.files) (Alike-after (m s).0 (m s).1 k ys _ (a s) b)

  pub for_each-Refines :
      {A : Type 0} (f : A → Exec P F) (g : A → List Op) (xs : List A)
      → ((x : A) → Refines (f x) (g x))
      → Refines (for_each f xs) (concat_map g xs)
  unfolding for_each concat_map perform_all
  for_each-Refines f g [] h s = refl
  for_each-Refines f g (x ∷ xs) h s =
      >>-Refines (f x) (for_each f xs) (g x) (concat_map g xs) (h x) (for_each-Refines f g xs h) s

  or_phase_failure-Alike :
      (name : Text) (r : Result ProvisionError (Unit {0})) (s : RunState P F)
      → Alike
          (or_phase_failure provisioner backend name r s).0
          (or_phase_failure provisioner backend name r s).1
          (map_err provision_fault r, (s.prov, s.files))
  unfolding phase_failure fault_of
  or_phase_failure-Alike name (ok u) s = refl
  or_phase_failure-Alike name (err e) s = record {
    fault = provision_fault e;
    stopped = refl;
    cause = refl;
    prov_restored = refl;
    files_restored = refl;
  }

  -- An operation of the provisioner that is a list of operations.
  abbrev pub SystemOps : Effect ProvisionError P → List Op → Type 0
  SystemOps e ops =
      (p : P) (f : F)
      → perform_all provisioner backend ops p f ≡ on_system provisioner backend e p f

  continue-done :
      (r : Performed provisioner backend)
      → continue provisioner backend r (perform_all provisioner backend []) ≡ r
  unfolding perform_all
  continue-done (ok u, w) = refl
  continue-done (err e, w) = refl

  pub one-SystemOps :
      (e : Effect ProvisionError P) (op : Op)
      → ((p : P) (f : F) → perform provisioner backend op p f ≡ on_system provisioner backend e p f)
      → SystemOps e (op ∷ [])
  unfolding perform_all
  one-SystemOps e op h p f = continue-done (perform provisioner backend op p f) ∙ h p f

  then_if_ok-continue :
      (r : Result ProvisionError (Unit {0})) (p : P) (f : F) (k : Effect ProvisionError P)
      → continue provisioner backend
          (map_err provision_fault r, (p, f))
          (on_system provisioner backend k)
        ≡ (map_err provision_fault (then_if_ok r p k).0, ((then_if_ok r p k).1, f))
  then_if_ok-continue (ok u) p f k = refl
  then_if_ok-continue (err e) p f k = refl

  pub and_then-SystemOps :
      (d e : Effect ProvisionError P) (x y : Op)
      → ((p : P) (f : F) → perform provisioner backend x p f ≡ on_system provisioner backend d p f)
      → ((p : P) (f : F) → perform provisioner backend y p f ≡ on_system provisioner backend e p f)
      → SystemOps (and_then d e) (x ∷ y ∷ [])
  unfolding perform_all
  and_then-SystemOps d e x y h k p f =
      ap (λ r. continue provisioner backend r (perform_all provisioner backend (y ∷ []))) (h p f)
      ∙ (continue-ext (on_system provisioner backend d p f) _ _ (one-SystemOps e y k)
          ∙ then_if_ok-continue (d p).0 (d p).1 f e)

  pub provision-Refines :
      (name : Text) (e : Effect ProvisionError P) (ops : List Op)
      → SystemOps e ops
      → Refines (provision provisioner backend name e) ops
  unfolding provision
  provision-Refines name e ops h s =
      rw (h s.prov s.files)
        (or_phase_failure-Alike name (e s.prov).0 (record s { prov = (e s.prov).1 }))

  or_phase_failure_file_access-Alike :
      (r : Result FileAccessError (Unit {0})) (s : RunState P F)
      → Alike
          (or_phase_failure_file_access provisioner backend r s).0
          (or_phase_failure_file_access provisioner backend r s).1
          (map_err access_fault r, (s.prov, s.files))
  unfolding phase_failure_file_access fault_of
  or_phase_failure_file_access-Alike (ok u) s = refl
  or_phase_failure_file_access-Alike (err e) s = record {
    fault = access_fault e;
    stopped = refl;
    cause = refl;
    prov_restored = refl;
    files_restored = refl;
  }

  pub access-Refines :
      (e : Effect FileAccessError F) (op : Op)
      → ((p : P) (f : F) → perform provisioner backend op p f ≡ on_files provisioner backend e p f)
      → Refines (access provisioner backend e) (op ∷ [])
  unfolding access perform_all
  access-Refines e op h s =
      rw (continue-done (perform provisioner backend op s.prov s.files), h s.prov s.files)
        (or_phase_failure_file_access-Alike (e s.files).0 (record s { files = (e s.files).1 }))

  pub fail_corrupt_plan-Refines :
      (name : Text) → Refines (fail_corrupt_plan provisioner backend name) (Op.no_group name ∷ [])
  unfolding fail_corrupt_plan perform_all perform fault_of
  fail_corrupt_plan-Refines name s = record {
    fault = missing_group name;
    stopped = refl;
    cause = refl;
    prov_restored = refl;
    files_restored = refl;
  }

  -- A step that only writes something down.
  pub quiet-Refines :
      (m : Exec P F) (ops : List Op) (k : Exec P F)
      → Refines m ops
      → ((s : RunState P F) → Alike (k s).0 (k s).1 (ok tt, (s.prov, s.files)))
      → Refines (m >> k) ops
  unfolding perform_all
  quiet-Refines m ops k h q s =
      subst (λ r. Alike ((m >> k) s).0 ((m >> k) s).1 r)
        (sym (perform_all-append ops [] s.prov s.files)
          ∙ ap (λ l. perform_all provisioner backend l s.prov s.files) (append-nil ops))
        (Alike-after (m s).0 (m s).1 k [] _ (h s) q)
