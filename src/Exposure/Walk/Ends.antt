-- ===== src/Exposure/Walk/Ends.antt =====
-- The walk of src/exposure/index.rs ends.
use census.Prelude.{
  zero, ap, inr, refl, inl, suc, none, [], ◌∷◌, err, arith, Bool-cases, some, ◌<◌, ◌≡◌, ok, length,
  ◌+◌, Text, Result, Option, ℕ, List,
}
use census.Exposure.Walk.{
  walked, directory, push_stat, other_file, not_found, symlink, lstat_failed, inode, RootWalk,
  found, skip_or_enter, root_lstat, root_kind, enter_root, then_roots, Metadata, LstatOutcome,
  ExposureError, step_dir, WalkOutcome, FileKind, walk_roots, walk_root, walk_dirs, walk, Walked,
  Inode, WalkSystem,
}
use census.Exposure.Mounts.{skip_fstype, MountTable}
use census.Exposure.Walk.Load.{on_read-load, unseen-length, unseen, AreAll}
use census.Exposure.Scope.{is_pseudo_fs}

module _ {S : Type 0} (sys : WalkSystem S) (mounts : MountTable) (inodes : List Inode)
    (all : AreAll sys mounts inodes) where
  walk_dirs-Returns :
      (fuel : ℕ) (o : WalkOutcome) (visited : List Inode) (stack : List (Text × Inode)) (s : S)
      → unseen inodes visited + length stack < fuel
      → (p : WalkOutcome) × (t : S) × (walk_dirs sys mounts fuel
            (record { outcome = o; visited = visited; stack = stack })
            s
          ≡ some (p, t))
  unfolding walk_dirs step_dir
  walk_dirs-Returns zero o visited stack s h = absurd (omega (arith, h))
  walk_dirs-Returns (suc fuel) o visited [] s h = (o, s, refl)
  walk_dirs-Returns (suc fuel) o visited ((dir, i) ∷ stack) s h =
      let w : RootWalk = record { outcome = o; visited = visited; stack = stack } in
      let read = sys.read_dir dir s in
      let next = step_dir sys mounts dir i w s in
      let less = on_read-load sys mounts inodes all dir i w read.0 read.1 in
      walk_dirs-Returns fuel next.0.outcome next.0.visited next.0.stack next.1
        (omega (arith, less, h))

  abbrev pub Returns : Walked sys mounts → Type 0
  Returns r = (q : Result ExposureError WalkOutcome) × (t : S) × (r ≡ some (q, t))

  enter_root-Returns :
      (fuel : ℕ) (k : FileKind) (m : Metadata) (root : Text) (o : WalkOutcome) (s : S)
      → 1 + length inodes < fuel
      → Returns (enter_root sys mounts fuel k m root o s)
  enter_root-Returns fuel symlink m root o s h = (_, _, refl)
  enter_root-Returns fuel other_file m root o s h = (_, _, refl)
  enter_root-Returns fuel directory m root o s h =
      let bound = unseen-length inodes (inode m ∷ []) in
      let e =
        walk_dirs-Returns fuel (push_stat m root o) (inode m ∷ []) ((root, inode m) ∷ []) s
          (omega (arith, bound, h)) in
      (ok e.0, e.1, ap (walked sys mounts) e.2)

  skip_or_enter-Returns :
      (fuel : ℕ) (f : Option Text) (m : Metadata) (root : Text) (o : WalkOutcome) (s : S)
      → 1 + length inodes < fuel
      → Returns (skip_or_enter sys mounts fuel f m root o s)
  skip_or_enter-Returns fuel (some t) m root o s h = (_, _, refl)
  skip_or_enter-Returns fuel none m root o s h = enter_root-Returns fuel m.kind m root o s h

  root_kind-Returns :
      (fuel : ℕ) (k : FileKind) (m : Metadata) (root : Text) (o : WalkOutcome) (s : S)
      → 1 + length inodes < fuel
      → Returns (root_kind sys mounts fuel k m root o s)
  root_kind-Returns fuel symlink m root o s h = (_, _, refl)
  root_kind-Returns fuel other_file m root o s h =
      skip_or_enter-Returns fuel (skip_fstype root mounts) m root o s h
  root_kind-Returns fuel directory m root o s h =
      skip_or_enter-Returns fuel (skip_fstype root mounts) m root o s h

  root_lstat-Returns :
      (fuel : ℕ) (root : Text) (o : WalkOutcome) (l : LstatOutcome) (s : S)
      → 1 + length inodes < fuel
      → Returns (root_lstat sys mounts fuel root o (l, s))
  root_lstat-Returns fuel root o (found m) s h = root_kind-Returns fuel m.kind m root o s h
  root_lstat-Returns fuel root o not_found s h = (_, _, refl)
  root_lstat-Returns fuel root o (lstat_failed r) s h = (_, _, refl)

  walk_root-Returns :
      (fuel : ℕ) (root : Text) (o : WalkOutcome) (s : S)
      → 1 + length inodes < fuel
      → Returns (walk_root sys mounts fuel root o s)
  unfolding walk_root
  walk_root-Returns fuel root o s h = elim (Bool-cases (is_pseudo_fs root)) [
    | inl e ↦ rw e (_, _, refl)
    | inr e ↦ rw e (
        root_lstat-Returns fuel root o (sys.symlink_metadata root s).0
          (sys.symlink_metadata root s).1 h)
  ]

  then_roots-Returns :
      (r : Walked sys mounts) (k : WalkOutcome → S → Walked sys mounts)
      → Returns r
      → ((o : WalkOutcome) (s : S) → Returns (k o s))
      → Returns (then_roots sys mounts r k)
  then_roots-Returns none k x f = absurd (cc (x.2))
  then_roots-Returns (some (ok o, s)) k x f = f o s
  then_roots-Returns (some (err e, s)) k x f = (_, _, refl)

  walk_roots-Returns :
      (fuel : ℕ) (roots : List Text) (o : WalkOutcome) (s : S)
      → 1 + length inodes < fuel
      → Returns (walk_roots sys mounts fuel roots o s)
  unfolding walk_roots
  walk_roots-Returns fuel [] o s h = (_, _, refl)
  walk_roots-Returns fuel (r ∷ roots) o s h =
      then_roots-Returns _ _ (walk_root-Returns fuel r o s h)
        (λ p t. walk_roots-Returns fuel roots p t h)

  -- However the files change meanwhile, if the directories that a path can name are all among some
  -- inodes, the walk ends: more fuel than one for each of these and one more is enough, for any
  -- roots.
  pub walk-Returns :
      (fuel : ℕ) (roots : List Text) (s : S)
      → 1 + length inodes < fuel
      → Returns (walk sys mounts fuel roots s)
  unfolding walk
  walk-Returns fuel roots s h = walk_roots-Returns fuel roots _ s h
