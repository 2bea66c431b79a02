-- ===== src/Tests/Walking.antt =====
-- The walk of src/exposure/index.rs where a directory is mounted below itself.
use census.Prelude.Map
use census.Prelude.{
  str_eq, segments, components, path_eq, refl, ◌≡◌, map, join, arith, some, ok, inl, ◌∷◌, Text, ◌+◌,
  List, ℕ, [], codes,
}
use census.Exposure.Walk.Load.{AreAll}
use census.Exposure.Walk.{
  push_stat, admit_dir, step_entry, InodeStat, step_entries, step_dir, walk_dirs, walk_root, inode,
  found, walk_roots, directory, walk, Walked, WalkSystem, Metadata,
}
use census.Exposure.Walk.Ends.{walk-Returns, Returns}
use census.Exposure.Mounts.{skip_fstype}
use census.Exposure.Scope.{is_pseudo_fs}

abbrev loop_dir : Metadata
loop_dir = record { uid = 0; gid = 0; mode = 16877; dev = 1; ino = 7; kind = directory }

-- Every path is the same directory, and has an entry of its own.
abbrev loop_system : WalkSystem ℕ
loop_system = record {
  symlink_metadata = λ path s. (found loop_dir, 1 + s);
  read_dir = λ path s. (some (join path (codes "b") ∷ []), 1 + s);
}

loop-AreAll : AreAll loop_system [] (inode loop_dir ∷ [])
loop-AreAll path s m e k = inl (cc e)

walk-Returns_example :
    Returns loop_system []
      (inode loop_dir ∷ [])
      loop-AreAll
      (walk loop_system [] 3 (codes "/srv" ∷ []) 0)
walk-Returns_example =
    walk-Returns loop_system [] (inode loop_dir ∷ []) loop-AreAll 3 (codes "/srv" ∷ []) 0
      (omega arith)

abbrev paths_of : Walked loop_system [] → List Text
paths_of (some (ok o, s)) = map (λ (t : InodeStat). t.path) o.stats
paths_of _ = []

-- The directory is read once; its entry is recorded, and not entered.
loop_test :
    paths_of (walk loop_system [] 3 (codes "/srv" ∷ []) 0) ≡ codes "/srv" ∷ codes "/srv/b" ∷ []
unfolding walk walk_roots walk_root walk_dirs step_dir step_entries step_entry admit_dir push_stat
    skip_fstype is_pseudo_fs join path_eq components segments str_eq Map.get
loop_test = refl
