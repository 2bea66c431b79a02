-- ===== src/Backup.antt =====
-- The backup of src/backup.rs: files copied aside before the first mutation, and put back after a
-- failure. The calls on the file system are given by the caller.
pub mod Replace
pub mod Restored
pub mod Names
pub mod Snapshot
use census.Prelude.{
  components, any, ◌+◌, ◌∷◌, parent_and_name, if◌then◌else◌, [], Bool, ◌++◌, Text, List, ℕ, ok, err,
  Result, Option, none, some, codes, join, print_u32, path_eq, map,
}
use census.FileAccess.{Effect}
use census.Sudoers.Fragment.{OpenOutcome, RemoveOutcome, opened, already_exists, open_failed}
use census.Sudoers.{is_ascii_alphanumeric}

pub data BackupError : Type 0 where
  mkdir : Text → Text → BackupError
  copy_failed : Text → Text → Text → BackupError
  no_snapshot : BackupError

-- `files` are the targets; `saved` has each with its copy.
pub record Backup : Type 0 where
  pub files : List Text
  pub root_dir : Text
  pub snapshot_dir : Option Text
  pub saved : List (Text × Text)

-- The calls on the system, over its state `S`.
pub record BackupSystem (S : Type 0) : Type 0 where
  pub timestamp_component : S → Text
  pub create_dir_0700 : Text → Effect Text S
  pub exists : Text → S → Bool
  pub copy : Text → Text → Effect Text S
  pub read_file : Text → S → Result Text Text
  pub open_restore_temp : Text → S → OpenOutcome × S
  pub write_temp : Text → Text → Effect Text S
  pub preserve_dest_permissions : Text → Text → Effect Text S
  pub rename_over : Text → Text → Effect Text S
  pub remove_path : Text → S → RemoveOutcome × S
  pub remove_dir_all : Text → S → S

abbrev pub auth_db_default : List Text
auth_db_default =
    codes "/etc/passwd" ∷ codes "/etc/shadow" ∷ codes "/etc/group" ∷ codes "/etc/gshadow" ∷ []

-- `Backup::new`
abbrev pub new_backup : List Text → Text → Backup
new_backup files root_dir = record {
  files = files;
  root_dir = root_dir;
  snapshot_dir = none;
  saved = [];
}

unfoldable pub add_file : Text → Backup → Backup
add_file path b =
    if any (λ p. path_eq p path) b.files then b else record b { files = b.files ++ (path ∷ []) }

-- `sanitize`
unfoldable pub sanitize : Text → Text
unfolding is_ascii_alphanumeric
sanitize path = map (λ c. if is_ascii_alphanumeric c then c else b'_') path

-- `{i:03}`
abbrev pub pad_3 : Text → Text
pad_3 [] = codes "000"
pad_3 (a ∷ []) = codes "00" ++ (a ∷ [])
pad_3 (a ∷ b ∷ []) = codes "0" ++ (a ∷ b ∷ [])
pad_3 (a ∷ b ∷ c ∷ s) = a ∷ b ∷ c ∷ s

unfoldable pub copy_name : ℕ → Text → Text
unfolding sanitize
copy_name i original = pad_3 (print_u32 i) ++ (b'-' ∷ sanitize original)

module _ {S : Type 0} (sys : BackupSystem S) where
  abbrev pub Saving : Type 0
  Saving = Result BackupError (List (Text × Text)) × S

  abbrev pub or_copy_failed : Text → Text → Result Text (Unit {0}) × S → (S → Saving) → Saving
  or_copy_failed from to (ok u, s) k = k s
  or_copy_failed from to (err reason, s) k = (err (copy_failed from to reason), s)

  abbrev pub record_saved : Text × Text → Saving → Saving
  record_saved pair (ok saved, s) = (ok (pair ∷ saved), s)
  record_saved pair (err e, s) = (err e, s)

  -- The loop: a file that exists is copied, and every file is recorded.
  unfoldable pub save_all : Text → ℕ → List Text → S → Saving
  unfolding copy_name
  save_all dir i [] s = (ok [], s)
  save_all dir i (original ∷ files) s =
      let copy_path = join dir (copy_name i original) in
      let rest : S → Saving =
        λ t. record_saved (original, copy_path) (save_all dir (1 + i) files t) in
      if sys.exists original s
      then or_copy_failed original copy_path (sys.copy original copy_path s) rest
      else rest s

  abbrev pub Step : Type 0
  Step = Result BackupError (Unit {0}) × (Backup × S)

  abbrev pub remember_saved : Text → Backup → Saving → Step
  remember_saved dir b (ok saved, s) =
      (ok tt, (record b { snapshot_dir = some dir; saved = saved }, s))
  remember_saved dir b (err e, s) = (err e, (b, s))

  abbrev pub in_dir : Text → Backup → Result Text (Unit {0}) × S → Step
  in_dir dir b (ok u, s) = remember_saved dir b (save_all dir 0 b.files s)
  in_dir dir b (err reason, s) = (err (mkdir dir reason), (b, s))

  unfoldable pub snapshot : Backup → S → Step
  unfolding save_all
  snapshot b s =
      let dir = join b.root_dir (sys.timestamp_component s) in
      in_dir dir b (sys.create_dir_0700 dir s)

  abbrev pub Replacing : Type 0
  Replacing = Result BackupError (Unit {0}) × S

  -- Only logged when it fails.
  abbrev pub cleanup : Text → S → S
  cleanup tmp s = (sys.remove_path tmp s).1

  abbrev pub put_over : Text → Text → Result Text (Unit {0}) × S → Replacing
  put_over tmp dest (ok u, s) = (ok tt, s)
  put_over tmp dest (err reason, s) = (err (copy_failed tmp dest reason), cleanup tmp s)

  abbrev pub with_permissions : Text → Text → Text → Result Text (Unit {0}) × S → Replacing
  with_permissions src tmp dest (ok u, s) = put_over tmp dest (sys.rename_over tmp dest s)
  with_permissions src tmp dest (err reason, s) = (err (copy_failed src dest reason), cleanup tmp s)

  abbrev pub with_bytes : Text → Text → Text → Result Text (Unit {0}) × S → Replacing
  with_bytes src tmp dest (ok u, s) =
      with_permissions src tmp dest (sys.preserve_dest_permissions tmp dest s)
  with_bytes src tmp dest (err reason, s) = (err (copy_failed src tmp reason), cleanup tmp s)

  abbrev pub reopened : Text → Text → Text → Text → OpenOutcome × S → Replacing
  reopened src tmp dest bytes (opened, s) = with_bytes src tmp dest (sys.write_temp tmp bytes s)
  reopened src tmp dest bytes (already_exists, s) =
      (err (copy_failed src tmp (codes "File exists (os error 17)")), s)
  reopened src tmp dest bytes (open_failed reason, s) = (err (copy_failed src tmp reason), s)

  abbrev pub opened_temp : Text → Text → Text → Text → OpenOutcome × S → Replacing
  opened_temp src tmp dest bytes (opened, s) = with_bytes src tmp dest (sys.write_temp tmp bytes s)
  opened_temp src tmp dest bytes (already_exists, s) =
      reopened src tmp dest bytes (sys.open_restore_temp tmp (cleanup tmp s))
  opened_temp src tmp dest bytes (open_failed reason, s) = (err (copy_failed src tmp reason), s)

  abbrev pub from_copy : Text → Text → Text → Result Text Text → S → Replacing
  from_copy src tmp dest (ok bytes) s = opened_temp src tmp dest bytes (sys.open_restore_temp tmp s)
  from_copy src tmp dest (err reason) s = (err (copy_failed src tmp reason), s)

  -- `.census-restore-` and the name, in the directory of the destination.
  abbrev pub temp_in : Option (Text × Text) → Text
  temp_in none = join (codes ".") (codes ".census-restore-tmp")
  temp_in (some (parent, name)) = join parent (codes ".census-restore-" ++ name)

  abbrev pub restore_temp : Text → Text
  restore_temp dest = temp_in (parent_and_name (components dest))

  unfoldable pub atomic_replace : Text → Text → S → Replacing
  atomic_replace src dest s = from_copy src (restore_temp dest) dest (sys.read_file src s) s

  abbrev pub next_replace : Replacing → (S → Replacing) → Replacing
  next_replace (ok u, s) k = k s
  next_replace (err e, s) k = (err e, s)

  -- A file that was absent is removed; a removal that fails is only logged.
  unfoldable pub restore_all : List (Text × Text) → S → Replacing
  unfolding atomic_replace
  restore_all [] s = (ok tt, s)
  restore_all ((original, copy_path) ∷ saved) s =
      if sys.exists copy_path s
      then next_replace (atomic_replace copy_path original s) (restore_all saved)
      else restore_all saved (sys.remove_path original s).1

  abbrev pub restore_from_dir : Option Text → List (Text × Text) → S → Replacing
  restore_from_dir none saved s = (err no_snapshot, s)
  restore_from_dir (some dir) saved s = restore_all saved s

  abbrev pub keep_backup : Backup → Replacing → Step
  keep_backup b (r, s) = (r, (b, s))

  unfoldable pub restore : Backup → S → Step
  unfolding restore_all
  restore b s = keep_backup b (restore_from_dir b.snapshot_dir b.saved s)

  abbrev pub drop_dir : Option Text → S → S
  drop_dir none s = s
  drop_dir (some dir) s = sys.remove_dir_all dir s

  unfoldable pub commit_success : Backup → S → Backup × S
  commit_success b s = (record b { snapshot_dir = none; saved = [] }, drop_dir b.snapshot_dir s)
