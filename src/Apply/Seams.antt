-- ===== src/Apply/Seams.antt =====
-- What src/mutate.rs and src/fileaccess.rs document of the two seams that an apply run drives: what
-- an operation may touch, what a snapshot keeps, and what a restore brings back.
use census.Prelude.{ℕ, Option, ◌∷◌, true, path_eq, false, [], Text, List, Bool, any, ok, ◌≡◌}
use census.Model.{ResolvedAccount, ResolvedGroup}
use census.Plan.{Change}
use census.Provision.{Provisioner}
use census.FileAccess.{FileAccessBackend, Principal}
use census.Catalog.Grants.{ResolvedFileGrant}
use census.Sudoers.{sudoers_group_path}
use census.Apply.Touched.{fragment_path, grant_paths}

-- How a seam is looked at: what it saves whole, what it keeps at each path, and which paths an
-- operation on one path reaches. `holds a v ps s` says that the snapshot that `s` keeps is of `a`
-- and, at the paths that `ps` reach, of `v`.
pub record Seam (S A C : Type 0) : Type 1 where
  pub base : S → A
  pub view : S → Text → C
  pub reach : Text → Text → Bool
  pub holds : A → (Text → C) → List Text → S → Type 0

module _ {S A C : Type 0} (seam : Seam S A C) where
  abbrev pub covered : List Text → Text → Bool
  covered ps q = any (λ p. seam.reach p q) ps

  -- An operation on the paths keeps the snapshot, and everything that they do not reach.
  pub record Touches (ps : List Text) (before after : S) : Type 0 where
    pub keeps_snapshot :
        (a : A) (v : Text → C) (saved : List Text)
        → seam.holds a v saved before
        → seam.holds a v saved after
    pub keeps_rest : (q : Text) → covered ps q ≡ false → seam.view after q ≡ seam.view before q

  -- Nothing that can be looked at has changed.
  pub record SameHost (before after : S) : Type 0 where
    pub same_base : seam.base after ≡ seam.base before
    pub same_view : (q : Text) → seam.view after q ≡ seam.view before q

  -- A successful restore from the snapshot.
  pub record Restored (a : A) (v : Text → C) (saved : List Text) (before after : S) : Type 0 where
    pub base_back : seam.base after ≡ a
    pub view_back : (q : Text) → covered saved q ≡ true → seam.view after q ≡ v q
    pub rest_kept : (q : Text) → covered saved q ≡ false → seam.view after q ≡ seam.view before q

-- The auth database is saved whole, of the sudoers fragments those that are tracked.
pub record LawfulProvisioner {P A C : Type 0} (seam : Seam P A C) (sudoers_dir : Text)
    (prov : Provisioner P) : Type 0 where
  pub tracked : P → List Text
  pub create_lem : (acct : ResolvedAccount) (p : P) → Touches seam [] p (prov.create acct p).1
  pub update_lem :
      (acct : ResolvedAccount) (changes : List Change) (p : P)
      → Touches seam [] p (prov.update acct changes p).1
  pub delete_lem : (name : Text) (p : P) → Touches seam [] p (prov.delete name p).1
  pub create_group_lem :
      (name : Text) (gid : Option ℕ) (p : P) → Touches seam [] p (prov.create_group name gid p).1
  pub delete_group_lem : (name : Text) (p : P) → Touches seam [] p (prov.delete_group name p).1
  pub add_member_lem :
      (name m : Text) (p : P) → Touches seam [] p (prov.add_group_member name m p).1
  pub remove_member_lem :
      (name m : Text) (p : P) → Touches seam [] p (prov.remove_group_member name m p).1
  pub apply_sudoers_lem :
      (acct : ResolvedAccount) (p : P)
      → Touches seam (fragment_path sudoers_dir acct.name ∷ []) p (prov.apply_sudoers acct p).1
  pub remove_sudoers_lem :
      (name : Text) (p : P)
      → Touches seam (fragment_path sudoers_dir name ∷ []) p (prov.remove_sudoers name p).1
  pub apply_group_sudoers_lem :
      (g : ResolvedGroup) (p : P)
      → Touches seam (sudoers_group_path sudoers_dir g.name ∷ []) p (prov.apply_group_sudoers g p).1
  pub remove_group_sudoers_lem :
      (name : Text) (p : P)
      → Touches seam
          (sudoers_group_path sudoers_dir name ∷ [])
          p
          (prov.remove_group_sudoers name p).1
  pub track_same : (path : Text) (p : P) → SameHost seam p (prov.track_sudoers_backup path p)
  pub track_more :
      (path : Text) (p : P) (q : Text)
      → covered seam (path ∷ tracked p) q ≡ true
      → covered seam (tracked (prov.track_sudoers_backup path p)) q ≡ true
  pub snapshot_same : (p : P) → SameHost seam p (prov.snapshot p).1
  pub snapshot_holds :
      (p : P)
      → (prov.snapshot p).0 ≡ ok tt
      → seam.holds (seam.base p) (seam.view p) (tracked p) (prov.snapshot p).1
  pub restore_lem :
      (a : A) (v : Text → C) (saved : List Text) (p : P)
      → seam.holds a v saved p
      → (prov.restore p).0 ≡ ok tt
      → Restored seam a v saved p (prov.restore p).1

-- Nothing is saved whole: what a grant changes lies in the trees of the granted paths.
pub record LawfulBackend {F C : Type 0} (seam : Seam F (Unit {0}) C) (backend : FileAccessBackend F)
    : Type 0 where
  pub materialize_lem :
      (principal : Principal) (grants : List ResolvedFileGrant) (f : F)
      → Touches seam (grant_paths grants) f (backend.materialize principal grants f).1
  pub revoke_lem :
      (principal : Principal) (grant : ResolvedFileGrant) (f : F)
      → Touches seam (grant.path ∷ []) f (backend.revoke principal grant f).1
  pub snapshot_same : (paths : List Text) (f : F) → SameHost seam f (backend.snapshot paths f).1
  pub snapshot_holds :
      (paths : List Text) (f : F)
      → (backend.snapshot paths f).0 ≡ ok tt
      → seam.holds tt (seam.view f) paths (backend.snapshot paths f).1
  pub restore_lem :
      (v : Text → C) (saved : List Text) (f : F)
      → seam.holds tt v saved f
      → (backend.restore f).0 ≡ ok tt
      → Restored seam tt v saved f (backend.restore f).1

-- Spellings of one path reach the same.
abbrev pub RespectsPaths : {S A C : Type 0} → Seam S A C → Type 0
RespectsPaths seam = (p r q : Text) → path_eq p r ≡ true → seam.reach p q ≡ seam.reach r q
