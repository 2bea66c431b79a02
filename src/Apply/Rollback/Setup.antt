-- ===== src/Apply/Rollback/Setup.antt =====
-- What the rollback of src/apply.rs is proved from: two lawful seams, what a snapshot saved of them,
-- and the rules for one step.
use census.Prelude.{[], Text, List, In}
use census.Apply.Seams.{Seam, LawfulProvisioner, LawfulBackend}
use census.Apply.Rollback.Covered.{Within}
use census.Apply.Rollback.Host.{Recoverable, Recoverable-Touches, Local}
use census.Apply.Rollback.{Safe, provision-Safe, access-Safe, >>-Sound, for_each-Sound, RolledBack}
use census.Apply.Exec.{provision, access, for_each, Exec, ◌>>◌}
use census.FileAccess.{FileAccessError, FileAccessBackend, Effect}
use census.Provision.{ProvisionError, Provisioner}

-- The seams with their laws, what was saved, and which fragments and paths were.
pub record Saved (P F A C D : Type 0) : Type 1 where
  pub sp : Seam P A C
  pub sf : Seam F (Unit {0}) D
  pub sudoers_dir : Text
  pub provisioner : Provisioner P
  pub backend : FileAccessBackend F
  pub lp : LawfulProvisioner sp sudoers_dir provisioner
  pub lf : LawfulBackend sf backend
  pub base : A
  pub contents : Text → C
  pub acls : Text → D
  pub fragments : List Text
  pub paths : List Text

module _ {P F A C D : Type 0} (c : Saved P F A C D) where
  -- Both seams are recoverable.
  abbrev pub BothRecoverable : P → F → Type 0
  BothRecoverable p f =
      Recoverable c.sp c.base c.contents c.fragments p × Recoverable c.sf tt c.acls c.paths f

  abbrev pub SafePhase : Exec P F → Type 0
  SafePhase m = Safe c.provisioner c.backend BothRecoverable m

  -- A step of the provisioner that touches saved fragments only.
  pub provision-Within :
      (name : Text) (ps : List Text) (e : Effect ProvisionError P)
      → Local c.sp ps e
      → Within c.sp ps c.fragments
      → SafePhase (provision c.provisioner c.backend name e)
  provision-Within name ps e l i =
      provision-Safe c.provisioner c.backend BothRecoverable name e (λ p f j.
        (Recoverable-Touches c.sp c.base c.contents c.fragments ps p (e p).1 (l p) i j.0, j.1))

  -- A step of the provisioner that touches no fragment.
  pub provision_elsewhere :
      (name : Text) (e : Effect ProvisionError P)
      → Local c.sp [] e
      → SafePhase (provision c.provisioner c.backend name e)
  provision_elsewhere name e l = provision-Within name [] e l (λ q h. cc)

  -- A step of the backend that touches saved paths only.
  pub access-Within :
      (ps : List Text) (e : Effect FileAccessError F)
      → Local c.sf ps e
      → Within c.sf ps c.paths
      → SafePhase (access c.provisioner c.backend e)
  access-Within ps e l i =
      access-Safe c.provisioner c.backend BothRecoverable e
        (λ p f j. (j.0, Recoverable-Touches c.sf tt c.acls c.paths ps f (e f).1 (l f) i j.1))

  -- One step after another.
  pub chain : (m k : Exec P F) → SafePhase m → SafePhase k → SafePhase (m >> k)
  chain m k = >>-Sound BothRecoverable (RolledBack c.provisioner c.backend BothRecoverable) m k

  pub each :
      {B : Type 0} (f : B → Exec P F) (xs : List B)
      → ((x : B) → In x xs → SafePhase (f x))
      → SafePhase (for_each f xs)
  each f xs =
      for_each-Sound BothRecoverable (RolledBack c.provisioner c.backend BothRecoverable) f xs
