-- ===== src/Exposure/Walk.antt =====
-- The walk of src/exposure/index.rs over the scan roots. Its calls on the file system are given by the
-- caller; each gives the next state, which others may have changed meanwhile.
pub mod Load
pub mod Ends
use census.Prelude.{
  zero, suc, none, false, err, Result, ◌∷◌, true, some, ok, if◌then◌else◌, any, [], Option, ◌==◌,
  ◌++◌, ◌&&◌, ℕ, Text, List, Bool, codes,
}
use census.Exposure.Mounts.{skip_fstype, MountTable}
use census.Exposure.Scope.{is_pseudo_fs}

pub data FileKind : Type 0 where
  symlink directory other_file : FileKind

-- `std::fs::Metadata`, as far as it is read.
pub record Metadata : Type 0 where
  pub uid : ℕ
  pub gid : ℕ
  pub mode : ℕ
  pub dev : ℕ
  pub ino : ℕ
  pub kind : FileKind

pub data LstatOutcome : Type 0 where
  found : Metadata → LstatOutcome
  not_found : LstatOutcome
  lstat_failed : Text → LstatOutcome

pub record WalkSystem (S : Type 0) : Type 0 where
  pub symlink_metadata : Text → S → LstatOutcome × S
  pub read_dir : Text → S → Option (List Text) × S

pub data ExposureError : Type 0 where
  walk_failed : Text → Text → ExposureError

pub record InodeStat : Type 0 where
  pub path : Text
  pub uid : ℕ
  pub gid : ℕ
  pub mode : ℕ
  pub is_dir : Bool

pub record SkippedMount : Type 0 where
  pub path : Text
  pub fstype : Text

pub record WalkOutcome : Type 0 where
  pub stats : List InodeStat
  pub skipped_mounts : List SkippedMount

abbrev pub Inode : Type 0
Inode = ℕ × ℕ

-- The walk of one root: what it has found, the directories it has entered, and those to read next,
-- each with its inode.
pub record RootWalk : Type 0 where
  pub outcome : WalkOutcome
  pub visited : List Inode
  pub stack : List (Text × Inode)

abbrev pub inode : Metadata → Inode
inode m = (m.dev, m.ino)

abbrev pub same_inode : Inode → Inode → Bool
same_inode i j = (i.0 == j.0) && (i.1 == j.1)

abbrev pub is_directory : FileKind → Bool
is_directory directory = true
is_directory _ = false

unfoldable pub push_stat : Metadata → Text → WalkOutcome → WalkOutcome
push_stat m path o =
    let stat : InodeStat = record {
      path = path;
      uid = m.uid;
      gid = m.gid;
      mode = m.mode;
      is_dir = is_directory m.kind;
    } in
    record o { stats = o.stats ++ (stat ∷ []) }

abbrev pub push_skipped : Text → Text → WalkOutcome → WalkOutcome
push_skipped path fstype o =
    let mount : SkippedMount = record { path = path; fstype = fstype } in
    record o { skipped_mounts = o.skipped_mounts ++ (mount ∷ []) }

-- `enter_dir`, when it inserts.
abbrev pub has_entered : Inode → List Inode → Bool
has_entered i visited = any (same_inode i) visited

module _ {S : Type 0} (sys : WalkSystem S) (mounts : MountTable) where
  abbrev pub descend_or_skip : Option Text → Text → Inode → RootWalk → RootWalk
  descend_or_skip (some fstype) path i w = record w {
    outcome = push_skipped path fstype w.outcome;
    visited = i ∷ w.visited;
  }
  descend_or_skip none path i w = record w { visited = i ∷ w.visited; stack = (path, i) ∷ w.stack }

  unfoldable pub admit_dir : Text → Inode → RootWalk → RootWalk
  admit_dir path i w =
      if has_entered i w.visited then w else descend_or_skip (skip_fstype path mounts) path i w

  abbrev pub recorded : Metadata → Text → RootWalk → RootWalk
  recorded m path w = record w { outcome = push_stat m path w.outcome }

  abbrev pub admit : FileKind → Metadata → Text → RootWalk → RootWalk
  admit symlink m path w = w
  admit other_file m path w = recorded m path w
  admit directory m path w = admit_dir path (inode m) (recorded m path w)

  abbrev pub on_lstat : Text → RootWalk → LstatOutcome × S → RootWalk × S
  on_lstat path w (found m, s) = (admit m.kind m path w, s)
  on_lstat path w (not_found, s) = (w, s)
  on_lstat path w (lstat_failed reason, s) = (w, s)

  unfoldable pub step_entry : Text → RootWalk → S → RootWalk × S
  unfolding admit_dir
  step_entry path w s =
      if is_pseudo_fs path then (w, s) else on_lstat path w (sys.symlink_metadata path s)

  unfoldable pub step_entries : List Text → RootWalk → S → RootWalk × S
  unfolding step_entry
  step_entries [] w s = (w, s)
  step_entries (path ∷ paths) w s =
      let next = step_entry path w s in step_entries paths next.0 next.1

  -- `dir_inode_unchanged`
  abbrev pub is_unchanged : Inode → LstatOutcome → Bool
  is_unchanged i (found m) = is_directory m.kind && same_inode (inode m) i
  is_unchanged i _ = false

  abbrev pub confirmed : Inode → List Text → RootWalk → LstatOutcome × S → RootWalk × S
  confirmed i paths w (o, s) = if is_unchanged i o then step_entries paths w s else (w, s)

  abbrev pub on_read : Text → Inode → RootWalk → Option (List Text) × S → RootWalk × S
  on_read dir i w (none, s) = (w, s)
  on_read dir i w (some paths, s) = confirmed i paths w (sys.symlink_metadata dir s)

  unfoldable pub step_dir : Text → Inode → RootWalk → S → RootWalk × S
  unfolding step_entries
  step_dir dir i w s = on_read dir i w (sys.read_dir dir s)

  -- On fuel: each directory that is read costs one.
  unfoldable pub walk_dirs : ℕ → RootWalk → S → Option (WalkOutcome × S)
  unfolding step_dir
  walk_dirs zero w s = none
  walk_dirs (suc fuel) w s = elim w.stack [
    | [] ↦ some (w.outcome, s)
    | (dir, i) ∷ stack ↦
        let next = step_dir dir i (record w { stack = stack }) s in walk_dirs fuel next.0 next.1
  ]

  abbrev pub Walked : Type 0
  Walked = Option (Result ExposureError WalkOutcome × S)

  abbrev pub walked : Option (WalkOutcome × S) → Walked
  walked none = none
  walked (some (o, s)) = some (ok o, s)

  abbrev pub enter_root : ℕ → FileKind → Metadata → Text → WalkOutcome → S → Walked
  enter_root fuel directory m root o s = walked (
      walk_dirs fuel
        (record {
          outcome = push_stat m root o;
          visited = inode m ∷ [];
          stack = (root, inode m) ∷ [];
        })
        s)
  enter_root fuel _ m root o s = some (ok (push_stat m root o), s)

  abbrev pub skip_or_enter : ℕ → Option Text → Metadata → Text → WalkOutcome → S → Walked
  skip_or_enter fuel (some fstype) m root o s = some (ok (push_skipped root fstype o), s)
  skip_or_enter fuel none m root o s = enter_root fuel m.kind m root o s

  abbrev pub root_kind : ℕ → FileKind → Metadata → Text → WalkOutcome → S → Walked
  root_kind fuel symlink m root o s = some (ok o, s)
  root_kind fuel _ m root o s = skip_or_enter fuel (skip_fstype root mounts) m root o s

  abbrev pub root_lstat : ℕ → Text → WalkOutcome → LstatOutcome × S → Walked
  root_lstat fuel root o (found m, s) = root_kind fuel m.kind m root o s
  root_lstat fuel root o (not_found, s) = some (ok o, s)
  root_lstat fuel root o (lstat_failed reason, s) = some (err (walk_failed root reason), s)

  unfoldable pub walk_root : ℕ → Text → WalkOutcome → S → Walked
  unfolding walk_dirs
  walk_root fuel root o s =
      if is_pseudo_fs root
      then some (ok o, s)
      else root_lstat fuel root o (sys.symlink_metadata root s)

  abbrev pub then_roots : Walked → (WalkOutcome → S → Walked) → Walked
  then_roots none k = none
  then_roots (some (ok o, s)) k = k o s
  then_roots (some (err e, s)) k = some (err e, s)

  unfoldable pub walk_roots : ℕ → List Text → WalkOutcome → S → Walked
  unfolding walk_root
  walk_roots fuel [] o s = some (ok o, s)
  walk_roots fuel (root ∷ roots) o s = then_roots (walk_root fuel root o s) (walk_roots fuel roots)

  -- `walk`
  unfoldable pub walk : ℕ → List Text → S → Walked
  unfolding walk_roots
  walk fuel roots s = walk_roots fuel roots (record { stats = []; skipped_mounts = [] }) s
