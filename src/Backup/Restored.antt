-- ===== src/Backup/Restored.antt =====
-- Restoring every saved file, as `Backup::restore` of src/backup.rs does.
use census.Prelude.{
  In-map, subst, [], sym, Bool-cases, ◌∷◌, Text, List, ok, err, refl, ◌≡◌, ◌≢◌, none, ◌∙◌, In, inl,
  inr, Distinct, map,
}
use census.Backup.{next_replace, restore_temp, atomic_replace, Replacing, BackupSystem, restore_all}
use census.Backup.Replace.{Copied, LawfulCopies, from_copy-Copied}

module _ {S : Type 0} (sys : BackupSystem S) (files : LawfulCopies sys) where
  -- Copies, originals and the temporary files of the restore are apart, and no original is saved
  -- twice.
  pub record Apart (saved : List (Text × Text)) : Type 0 where
    pub copy_original : (x y : Text × Text) → In x saved → In y saved → x.1 ≢ y.0
    pub copy_temp : (x y : Text × Text) → In x saved → In y saved → x.1 ≢ restore_temp sys y.0
    pub original_temp : (x y : Text × Text) → In x saved → In y saved → x.0 ≢ restore_temp sys y.0
    pub once : Distinct (map (λ (x : Text × Text). x.0) saved)

  Apart-rest : (x : Text × Text) (saved : List (Text × Text)) → Apart (x ∷ saved) → Apart saved
  Apart-rest x saved a = record {
    copy_original = λ y z i j. a.copy_original y z (inr i) (inr j);
    copy_temp = λ y z i j. a.copy_temp y z (inr i) (inr j);
    original_temp = λ y z i j. a.original_temp y z (inr i) (inr j);
    once = a.once.1;
  }

  -- A path that restoring the files does not touch.
  abbrev pub Elsewhere : List (Text × Text) → Text → Type 0
  Elsewhere saved q = (x : Text × Text) → In x saved → (q ≢ x.0) × (q ≢ restore_temp sys x.0)

  -- After a success, every original is what its copy was, and the rest is as it was.
  abbrev pub Back : List (Text × Text) → S → Replacing sys → Type 0
  Back saved s (ok u, t) =
      ((x : Text × Text) → In x saved → files.file t x.0 ≡ files.file s x.1)
      × ((q : Text) → Elsewhere saved q → files.file t q ≡ files.file s q)
  Back saved s (err e, t) = Unit

  combine :
      (x : Text × Text) (saved : List (Text × Text)) (s t : S) (r : Replacing sys)
      → Apart (x ∷ saved)
      → files.file t x.0 ≡ files.file s x.1
      → ((q : Text) → q ≢ restore_temp sys x.0 → q ≢ x.0 → files.file t q ≡ files.file s q)
      → Back saved t r
      → Back (x ∷ saved) s r
  combine x saved s t (err e, u) a h k b = tt
  combine x saved s t (ok v, u) a h k b = (
    λ y i. elim i [
      | inl e ↦ rw e (
          b.1 x.0 (λ z j. (
            λ q. a.once.0 (
                subst (λ p. In p (map (λ (w : Text × Text). w.0) saved)) (sym q)
                  (In-map (λ (w : Text × Text). w.0) z saved j)),
            a.original_temp x z (inl refl) (inr j),
          ))
          ∙ h)
      | inr j ↦
          b.0 y j
          ∙ k y.1 (a.copy_temp y x (inr j) (inl refl)) (a.copy_original y x (inr j) (inl refl))
    ],
    λ q n. b.1 q (λ z j. n z (inr j)) ∙ k q (n x (inl refl)).1 (n x (inl refl)).0,
  )

  after_replace :
      (x : Text × Text) (saved : List (Text × Text)) (s : S) (r : Replacing sys)
      → Apart (x ∷ saved)
      → Copied sys files x.1 (restore_temp sys x.0) x.0 s r
      → ((t : S) → Back saved t (restore_all sys saved t))
      → Back (x ∷ saved) s (next_replace sys r (restore_all sys saved))
  after_replace x saved s (ok u, t) a c ih = combine x saved s t _ a c.0 c.1 (ih t)
  after_replace x saved s (err e, t) a c ih = tt

  -- Given calls that touch only their own paths, a removal that works, and copies, originals and
  -- temporary files on different paths with no file saved twice: a restore that succeeds gives every
  -- saved file the content of its copy, or removes it if it has none, and changes no path but these
  -- and its temporary files.
  pub restore_all-Back :
      (removes : (p : Text) (s : S) → files.file (sys.remove_path p s).1 p ≡ none)
      (saved : List (Text × Text)) (s : S)
      → Apart saved
      → Back saved s (restore_all sys saved s)
  unfolding restore_all atomic_replace
  restore_all-Back removes [] s a = (λ x i. absurd i, λ q n. refl)
  restore_all-Back removes ((o, c) ∷ saved) s a = elim (Bool-cases (sys.exists c s)) [
    | inl e ↦ rw e (
        after_replace (o, c) saved s _ a
          (from_copy-Copied sys files c (restore_temp sys o) o s (sys.read_file c s) refl)
          (λ t. restore_all-Back removes saved t (Apart-rest (o, c) saved a)))
    | inr e ↦ rw e (
        combine (o, c) saved s (sys.remove_path o s).1 _ a
          (removes o s ∙ sym (files.exists_none c s e)) (λ q n m. files.remove_rest o s q m)
          (restore_all-Back removes saved (sys.remove_path o s).1 (Apart-rest (o, c) saved a)))
  ]
