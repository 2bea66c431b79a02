-- ===== src/Backup/Replace.antt =====
-- Replacing a file by its copy, as `atomic_replace` of src/backup.rs does.
use census.Prelude.{
  false, true, Text, ok, err, Result, refl, ◌≡◌, ◌≢◌, Option, some, none, ◌∙◌, sym, ap,
}
use census.Backup.{
  cleanup, reopened, opened_temp, with_permissions, with_bytes, put_over, from_copy, Replacing,
  BackupSystem,
}
use census.Sudoers.Fragment.{already_exists, opened, open_failed, OpenOutcome}

-- What the calls do to the files: each touches its own path, and a rename moves.
pub record LawfulCopies {S : Type 0} (sys : BackupSystem S) : Type 0 where
  pub file : S → Text → Option Text
  pub exists_some : (p : Text) (s : S) → sys.exists p s ≡ true → (c : Text) × (file s p ≡ some c)
  pub exists_none : (p : Text) (s : S) → sys.exists p s ≡ false → file s p ≡ none
  pub read_lem : (p c : Text) (s : S) → sys.read_file p s ≡ ok c → file s p ≡ some c
  pub open_rest :
      (p : Text) (s : S) (q : Text) → q ≢ p → file (sys.open_restore_temp p s).1 q ≡ file s q
  pub write_rest :
      (p c : Text) (s : S) (q : Text) → q ≢ p → file (sys.write_temp p c s).1 q ≡ file s q
  pub write_lem :
      (p c : Text) (s : S)
      → (sys.write_temp p c s).0 ≡ ok tt
      → file (sys.write_temp p c s).1 p ≡ some c
  pub preserve_lem :
      (p d : Text) (s : S) (q : Text) → file (sys.preserve_dest_permissions p d s).1 q ≡ file s q
  pub rename_lem :
      (p d : Text) (s : S)
      → (sys.rename_over p d s).0 ≡ ok tt
      → file (sys.rename_over p d s).1 d ≡ file s p
  pub rename_rest :
      (p d : Text) (s : S) (q : Text) → q ≢ p → q ≢ d → file (sys.rename_over p d s).1 q ≡ file s q
  pub remove_rest :
      (p : Text) (s : S) (q : Text) → q ≢ p → file (sys.remove_path p s).1 q ≡ file s q

module _ {S : Type 0} (sys : BackupSystem S) (files : LawfulCopies sys) (src tmp dest : Text)
    (start : S) where
  abbrev Intact : S → Type 0
  Intact s = (q : Text) → q ≢ tmp → files.file s q ≡ files.file start q

  -- After a success, the destination holds the bytes, and nothing else but the temporary file has
  -- changed.
  abbrev pub PutBack : Text → Replacing sys → Type 0
  PutBack bytes (ok u, s) =
      (files.file s dest ≡ some bytes)
      × ((q : Text) → q ≢ tmp → q ≢ dest → files.file s q ≡ files.file start q)
  PutBack bytes (err e, s) = Unit

  put_over-PutBack :
      (bytes : Text) (s : S) (r : Result Text (Unit {0})) (t : S)
      → sys.rename_over tmp dest s ≡ (r, t)
      → files.file s tmp ≡ some bytes
      → Intact s
      → PutBack bytes (put_over sys tmp dest (r, t))
  put_over-PutBack bytes s (ok u) t e c h = (
    ap (λ w. files.file w.1 dest) (sym e) ∙ (files.rename_lem tmp dest s (ap (λ w. w.0) e) ∙ c),
    λ q n m. ap (λ w. files.file w.1 q) (sym e) ∙ (files.rename_rest tmp dest s q n m ∙ h q n),
  )
  put_over-PutBack bytes s (err x) t e c h = tt

  with_permissions-PutBack :
      (bytes : Text) (s : S) (r : Result Text (Unit {0})) (t : S)
      → sys.preserve_dest_permissions tmp dest s ≡ (r, t)
      → files.file s tmp ≡ some bytes
      → Intact s
      → PutBack bytes (with_permissions sys src tmp dest (r, t))
  with_permissions-PutBack bytes s (ok u) t e c h =
      put_over-PutBack bytes t (sys.rename_over tmp dest t).0 (sys.rename_over tmp dest t).1 refl
        (ap (λ w. files.file w.1 tmp) (sym e) ∙ (files.preserve_lem tmp dest s tmp ∙ c))
        (λ q n. ap (λ w. files.file w.1 q) (sym e) ∙ (files.preserve_lem tmp dest s q ∙ h q n))
  with_permissions-PutBack bytes s (err x) t e c h = tt

  with_bytes-PutBack :
      (bytes : Text) (s : S) (r : Result Text (Unit {0})) (t : S)
      → sys.write_temp tmp bytes s ≡ (r, t)
      → Intact s
      → PutBack bytes (with_bytes sys src tmp dest (r, t))
  with_bytes-PutBack bytes s (ok u) t e h =
      with_permissions-PutBack bytes t (sys.preserve_dest_permissions tmp dest t).0
        (sys.preserve_dest_permissions tmp dest t).1 refl
        (ap (λ w. files.file w.1 tmp) (sym e) ∙ files.write_lem tmp bytes s (ap (λ w. w.0) e))
        (λ q n. ap (λ w. files.file w.1 q) (sym e) ∙ (files.write_rest tmp bytes s q n ∙ h q n))
  with_bytes-PutBack bytes s (err x) t e h = tt

  written-PutBack :
      (bytes : Text) (t : S)
      → Intact t
      → PutBack bytes (with_bytes sys src tmp dest (sys.write_temp tmp bytes t))
  written-PutBack bytes t h =
      with_bytes-PutBack bytes t (sys.write_temp tmp bytes t).0 (sys.write_temp tmp bytes t).1 refl
        h

  reopened-PutBack :
      (bytes : Text) (o : OpenOutcome) (t : S)
      → Intact t
      → PutBack bytes (reopened sys src tmp dest bytes (o, t))
  reopened-PutBack bytes opened t h = written-PutBack bytes t h
  reopened-PutBack bytes already_exists t h = tt
  reopened-PutBack bytes (open_failed x) t h = tt

  opened-PutBack :
      (bytes : Text) (o : OpenOutcome) (t : S)
      → Intact t
      → PutBack bytes (opened_temp sys src tmp dest bytes (o, t))
  opened-PutBack bytes opened t h = written-PutBack bytes t h
  opened-PutBack bytes already_exists t h =
      let cleaned = cleanup sys tmp t in
      reopened-PutBack bytes (sys.open_restore_temp tmp cleaned).0
        (sys.open_restore_temp tmp cleaned).1
        (λ q n. files.open_rest tmp cleaned q n ∙ (files.remove_rest tmp t q n ∙ h q n))
  opened-PutBack bytes (open_failed x) t h = tt

  -- The copy's content is at the destination.
  abbrev pub Copied : Replacing sys → Type 0
  Copied (ok u, s) =
      (files.file s dest ≡ files.file start src)
      × ((q : Text) → q ≢ tmp → q ≢ dest → files.file s q ≡ files.file start q)
  Copied (err e, s) = Unit

  PutBack-Copied :
      (bytes : Text) (r : Replacing sys)
      → files.file start src ≡ some bytes
      → PutBack bytes r
      → Copied r
  PutBack-Copied bytes (ok u, s) e h = (h.0 ∙ sym e, h.1)
  PutBack-Copied bytes (err x, s) e h = tt

  pub from_copy-Copied :
      (r : Result Text Text)
      → sys.read_file src start ≡ r
      → Copied (from_copy sys src tmp dest r start)
  from_copy-Copied (ok bytes) e = PutBack-Copied bytes _ (files.read_lem src bytes start e) (
      opened-PutBack bytes (sys.open_restore_temp tmp start).0 (sys.open_restore_temp tmp start).1
        (λ q n. files.open_rest tmp start q n))
  from_copy-Copied (err x) e = tt
