-- ===== src/Sudoers/Fragment.antt =====
-- `write_fragment` and `remove_fragment` of src/sudoers.rs, over the file system and `visudo`, which
-- the caller gives.
use census.Prelude.{◌++◌, ◌∷◌, Text, ok, err, Result, join, codes}
use census.FileAccess.{Effect}
use census.Sudoers.{sudoers_group_filename, sudoers_filename}

pub data SudoersError : Type 0 where
  write_temp : Text → Text → SudoersError
  mode : Text → Text → SudoersError
  visudo_spawn : Text → SudoersError
  visudo_rejected : Text → Text → SudoersError
  activate : Text → Text → SudoersError
  remove : Text → Text → SudoersError

pub data OpenOutcome : Type 0 where
  opened : OpenOutcome
  already_exists : OpenOutcome
  open_failed : Text → OpenOutcome

pub data VisudoOutcome : Type 0 where
  accepted : VisudoOutcome
  rejected : Text → VisudoOutcome
  not_spawned : Text → VisudoOutcome

pub data RemoveOutcome : Type 0 where
  removed absent : RemoveOutcome
  remove_failed : Text → RemoveOutcome

-- The calls on the system, over its state `S`.
pub record FragmentSystem (S : Type 0) : Type 0 where
  pub open_excl : Text → S → OpenOutcome × S
  pub write_all : Text → Text → Effect Text S
  pub set_mode_0440 : Text → Effect Text S
  pub visudo : Text → S → VisudoOutcome × S
  pub rename : Text → Text → Effect Text S
  pub remove_file : Text → S → RemoveOutcome × S

module _ {S : Type 0} (sys : FragmentSystem S) where
  abbrev pub Written : Type 0
  Written = Result SudoersError (Unit {0}) × S

  -- The outcome of the removal is only logged.
  abbrev pub cleanup_temp : Text → S → S
  cleanup_temp tmp s = (sys.remove_file tmp s).1

  abbrev pub give_up : Text → SudoersError → S → Written
  give_up tmp e s = (err e, cleanup_temp tmp s)

  abbrev pub renamed : Text → Text → Result Text (Unit {0}) × S → Written
  renamed tmp dest (ok u, s) = (ok tt, s)
  renamed tmp dest (err reason, s) = give_up tmp (activate dest reason) s

  -- From what `visudo -c -f` says.
  abbrev pub validated : Text → Text → Text → VisudoOutcome × S → Written
  validated tmp dest subject (accepted, s) = renamed tmp dest (sys.rename tmp dest s)
  validated tmp dest subject (rejected stderr, s) = give_up tmp (visudo_rejected subject stderr) s
  validated tmp dest subject (not_spawned reason, s) = give_up tmp (visudo_spawn reason) s

  abbrev pub moded : Text → Text → Text → Result Text (Unit {0}) × S → Written
  moded tmp dest subject (ok u, s) = validated tmp dest subject (sys.visudo tmp s)
  moded tmp dest subject (err reason, s) = give_up tmp (mode tmp reason) s

  abbrev pub filled : Text → Text → Text → Result Text (Unit {0}) × S → Written
  filled tmp dest subject (ok u, s) = moded tmp dest subject (sys.set_mode_0440 tmp s)
  filled tmp dest subject (err reason, s) = give_up tmp (write_temp tmp reason) s

  abbrev pub open_again : Text → Text → Text → Text → OpenOutcome × S → Written
  open_again tmp dest content subject (opened, s) =
      filled tmp dest subject (sys.write_all tmp content s)
  open_again tmp dest content subject (already_exists, s) =
      (err (write_temp tmp (codes "File exists (os error 17)")), s)
  open_again tmp dest content subject (open_failed reason, s) = (err (write_temp tmp reason), s)

  -- A leftover is removed, and the file opened once more.
  abbrev pub open_first : Text → Text → Text → Text → OpenOutcome × S → Written
  open_first tmp dest content subject (opened, s) =
      filled tmp dest subject (sys.write_all tmp content s)
  open_first tmp dest content subject (already_exists, s) =
      open_again tmp dest content subject (sys.open_excl tmp (cleanup_temp tmp s))
  open_first tmp dest content subject (open_failed reason, s) = (err (write_temp tmp reason), s)

  abbrev pub temp_path : Text → Text → Text
  temp_path dir filename = join dir ((b'.' ∷ filename) ++ codes ".tmp")

  unfoldable pub write_fragment : Text → Text → Text → Text → S → Written
  write_fragment dir filename content subject s =
      let tmp = temp_path dir filename in
      open_first tmp (join dir filename) content subject (sys.open_excl tmp s)

  abbrev pub remove_outcome : Text → RemoveOutcome × S → Written
  remove_outcome path (removed, s) = (ok tt, s)
  remove_outcome path (absent, s) = (ok tt, s)
  remove_outcome path (remove_failed reason, s) = (err (remove path reason), s)

  unfoldable pub remove_fragment : Text → Text → S → Written
  remove_fragment dir filename s =
      let path = join dir filename in remove_outcome path (sys.remove_file path s)

  unfoldable pub write_sudoers : Text → Text → Text → S → Written
  unfolding write_fragment
  write_sudoers dir role content s = write_fragment dir (sudoers_filename role) content role s

  unfoldable pub remove_sudoers : Text → Text → S → Written
  unfolding remove_fragment
  remove_sudoers dir role s = remove_fragment dir (sudoers_filename role) s

  unfoldable pub write_group_sudoers : Text → Text → Text → S → Written
  unfolding write_fragment
  write_group_sudoers dir group content s =
      write_fragment dir (sudoers_group_filename group) content group s

  unfoldable pub remove_group_sudoers : Text → Text → S → Written
  unfolding remove_fragment
  remove_group_sudoers dir group s = remove_fragment dir (sudoers_group_filename group) s
