-- ===== src/Exposure/Walk/Load.antt =====
-- What the walk of src/exposure/index.rs has left to do: it enters each directory inode at most once.
use census.Prelude.{
  sym, subst, refl, none, some, inr, inl, ◌<◌, true, false, [], Option, Bool-cases, ◌+◌, ◌≡◌,
  length, if◌then◌else◌, arith, Text, ◌≤◌, ◌∷◌, ℕ, In, List,
}
use census.Exposure.Walk.{
  descend_or_skip, other_file, not_found, symlink, lstat_failed, on_lstat, admit, is_unchanged,
  inode, on_read, found, directory, confirmed, Metadata, LstatOutcome, step_entry, step_entries,
  has_entered, admit_dir, RootWalk, FileKind, same_inode, WalkSystem, Inode,
}
use census.Exposure.Mounts.{skip_fstype, MountTable}
use census.Exposure.Scope.{is_pseudo_fs}

-- How many of the inodes have not been entered.
unfoldable pub unseen : List Inode → List Inode → ℕ
unseen [] visited = 0
unseen (u ∷ us) visited =
    let rest = unseen us visited in if has_entered u visited then rest else 1 + rest

same_inode_refl : (i : Inode) → same_inode i i ≡ true
same_inode_refl (d, n) = ground arith

unseen_more : (us visited : List Inode) (i : Inode) → unseen us (i ∷ visited) ≤ unseen us visited
unfolding unseen
unseen_more [] visited i = omega arith
unseen_more (u ∷ us) visited i = elim (Bool-cases (same_inode u i)) [
  | inl e ↦ rw e (ground (arith, unseen_more us visited i))
  | inr e ↦ rw e (ground (arith, unseen_more us visited i))
]

unseen_new :
    (us visited : List Inode) (i : Inode)
    → In i us
    → has_entered i visited ≡ false
    → unseen us (i ∷ visited) < unseen us visited
unfolding unseen
unseen_new [] visited i j h = absurd j
unseen_new (u ∷ us) visited i (inl e) h =
    let fresh : has_entered u visited ≡ false = subst (λ k. has_entered k visited ≡ false) e h in
    let same : same_inode u i ≡ true =
      subst (λ k. same_inode u k ≡ true) (sym e) (same_inode_refl u) in
    rw (same, fresh) (ground (arith, unseen_more us visited i))
unseen_new (u ∷ us) visited i (inr j) h = ground (arith, unseen_new us visited i j h)

pub unseen-length : (us visited : List Inode) → unseen us visited ≤ length us
unfolding unseen
unseen-length [] visited = omega arith
unseen-length (u ∷ us) visited = ground (arith, unseen-length us visited)

module _ {S : Type 0} (sys : WalkSystem S) (mounts : MountTable) (inodes : List Inode) where
  -- Every directory that a path ever names is one of these.
  abbrev pub AreAll : Type 0
  AreAll =
      (path : Text) (s : S) (m : Metadata)
      → (sys.symlink_metadata path s).0 ≡ found m
      → m.kind ≡ directory
      → In (inode m) inodes

  -- What is left to do at most.
  abbrev pub load : RootWalk → ℕ
  load w = unseen inodes w.visited + length w.stack

  descend-load :
      (o : Option Text) (path : Text) (i : Inode) (w : RootWalk)
      → In i inodes
      → has_entered i w.visited ≡ false
      → load (descend_or_skip sys mounts o path i w) ≤ load w
  descend-load none path i w j h =
      let less = unseen_new inodes w.visited i j h in omega (arith, less)
  descend-load (some t) path i w j h =
      let less = unseen_new inodes w.visited i j h in omega (arith, less)

  admit_dir-load :
      (path : Text) (i : Inode) (w : RootWalk)
      → In i inodes
      → load (admit_dir sys mounts path i w) ≤ load w
  unfolding admit_dir
  admit_dir-load path i w j = elim (Bool-cases (has_entered i w.visited)) [
    | inl e ↦ rw e (omega arith)
    | inr e ↦ rw e (descend-load (skip_fstype path mounts) path i w j e)
  ]

  admit-load :
      (k : FileKind) (m : Metadata) (path : Text) (w : RootWalk)
      → (k ≡ directory → In (inode m) inodes)
      → load (admit sys mounts k m path w) ≤ load w
  admit-load symlink m path w j = omega arith
  admit-load directory m path w j = admit_dir-load path (inode m) _ (j refl)
  admit-load other_file m path w j = omega arith

  on_lstat-load :
      (path : Text) (w : RootWalk) (o : LstatOutcome) (t : S)
      → ((m : Metadata) → o ≡ found m → m.kind ≡ directory → In (inode m) inodes)
      → load (on_lstat sys mounts path w (o, t)).0 ≤ load w
  on_lstat-load path w (found m) t f = admit-load m.kind m path w (f m refl)
  on_lstat-load path w not_found t f = omega arith
  on_lstat-load path w (lstat_failed r) t f = omega arith

  module _ (all : AreAll) where
    step_entry-load :
        (path : Text) (w : RootWalk) (s : S) → load (step_entry sys mounts path w s).0 ≤ load w
    unfolding step_entry
    step_entry-load path w s = elim (Bool-cases (is_pseudo_fs path)) [
      | inl e ↦ rw e (omega arith)
      | inr e ↦ rw e (
          on_lstat-load path w (sys.symlink_metadata path s).0 (sys.symlink_metadata path s).1
            (all path s))
    ]

    step_entries-load :
        (paths : List Text) (w : RootWalk) (s : S)
        → load (step_entries sys mounts paths w s).0 ≤ load w
    unfolding step_entries
    step_entries-load [] w s = omega arith
    step_entries-load (p ∷ ps) w s =
        let next = step_entry sys mounts p w s in
        let first = step_entry-load p w s in
        let others = step_entries-load ps next.0 next.1 in omega (arith, first, others)

    confirmed-load :
        (i : Inode) (paths : List Text) (w : RootWalk) (o : LstatOutcome) (t : S)
        → load (confirmed sys mounts i paths w (o, t)).0 ≤ load w
    confirmed-load i paths w o t = elim (Bool-cases (is_unchanged sys mounts i o)) [
      | inl e ↦ rw e (step_entries-load paths w t)
      | inr e ↦ rw e (omega arith)
    ]

    pub on_read-load :
        (dir : Text) (i : Inode) (w : RootWalk) (r : Option (List Text)) (t : S)
        → load (on_read sys mounts dir i w (r, t)).0 ≤ load w
    on_read-load dir i w none t = omega arith
    on_read-load dir i w (some paths) t =
        confirmed-load i paths w (sys.symlink_metadata dir t).0 (sys.symlink_metadata dir t).1
