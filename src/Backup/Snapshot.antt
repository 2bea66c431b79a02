-- ===== src/Backup/Snapshot.antt =====
-- What a restore of src/backup.rs gives after a snapshot.
use census.Prelude.{
  some, [], Bool-cases, arith, refl, inr, u32_limit, inl, ◌≤◌, subst, ap, ◌∙◌, length, join, ◌∷◌,
  err, ◌+◌, ◌≢◌, ℕ, ok, none, ◌≡◌, Result, In, Text, List, sym,
}
use census.Backup.{
  in_dir, copy_name, restore_all, remember_saved, record_saved, or_copy_failed, keep_backup, Step,
  Saving, Replacing, snapshot, save_all, restore, Backup, BackupSystem,
}
use census.Backup.Replace.{LawfulCopies}
use census.Backup.Names.{copies_of-later, In-copies_of, copies_of}
use census.Backup.Restored.{restore_all-Back, Apart, Back}

module _ {S : Type 0} (sys : BackupSystem S) (files : LawfulCopies sys) where
  -- A copy writes its destination alone; making a directory changes no file.
  pub record LawfulSaves : Type 0 where
    pub copy_lem :
        (p d : Text) (s : S)
        → (sys.copy p d s).0 ≡ ok tt
        → files.file (sys.copy p d s).1 d ≡ files.file s p
    pub copy_rest :
        (p d : Text) (s : S) (q : Text) → q ≢ d → files.file (sys.copy p d s).1 q ≡ files.file s q
    pub mkdir_rest :
        (d : Text) (s : S) (q : Text) → files.file (sys.create_dir_0700 d s).1 q ≡ files.file s q

  module _ (saves : LawfulSaves) where
    -- None of the copies is there yet.
    abbrev pub NoCopies : List (Text × Text) → S → Type 0
    NoCopies saved s = (x : Text × Text) → In x saved → files.file s x.1 ≡ none

    abbrev OffOriginals : List (Text × Text) → Type 0
    OffOriginals saved = (x y : Text × Text) → In x saved → In y saved → x.1 ≢ y.0

    -- After a success, each copy is what its original was, and the rest is as it was.
    abbrev Saved : List (Text × Text) → S → Saving sys → Type 0
    Saved expected s (ok saved, t) =
        (saved ≡ expected)
        × ((x : Text × Text) → In x expected → files.file t x.1 ≡ files.file s x.0)
        × ((q : Text)
            → ((x : Text × Text) → In x expected → q ≢ x.1)
            → files.file t q ≡ files.file s q)
    Saved expected s (err e, t) = Unit

    record_saved-Saved :
        (x : Text × Text) (expected : List (Text × Text)) (s t : S) (r : Saving sys)
        → files.file t x.1 ≡ files.file s x.0
        → ((q : Text) → q ≢ x.1 → files.file t q ≡ files.file s q)
        → ((y : Text × Text) → In y expected → x.1 ≢ y.1)
        → ((y : Text × Text) → In y expected → y.0 ≢ x.1)
        → Saved expected t r
        → Saved (x ∷ expected) s (record_saved sys x r)
    record_saved-Saved x expected s t (err e, u) h k later off z = tt
    record_saved-Saved x expected s t (ok saved, u) h k later off z = (
      ap (λ l. x ∷ l) z.0,
      λ y i. elim i [ inl e ↦ rw e (z.2 x.1 later ∙ h) | inr j ↦ z.1 y j ∙ k y.0 (off y j) ],
      λ q n. z.2 q (λ y j. n y (inr j)) ∙ k q (n x (inl refl)),
    )

    after_copy :
        (x : Text × Text) (expected : List (Text × Text)) (s : S) (o : Result Text (Unit {0}))
        (t : S) (rest : S → Saving sys)
        → sys.copy x.0 x.1 s ≡ (o, t)
        → ((y : Text × Text) → In y expected → x.1 ≢ y.1)
        → ((y : Text × Text) → In y expected → y.0 ≢ x.1)
        → (((q : Text) → q ≢ x.1 → files.file t q ≡ files.file s q) → Saved expected t (rest t))
        → Saved
            (x ∷ expected)
            s
            (or_copy_failed sys x.0 x.1 (o, t) (λ u. record_saved sys x (rest u)))
    after_copy x expected s (err e) t rest c later off ih = tt
    after_copy x expected s (ok u) t rest c later off ih =
        let copied : files.file t x.1 ≡ files.file s x.0 =
          (ap (λ w. files.file w.1 x.1) (sym c) ∙ saves.copy_lem x.0 x.1 s (ap (λ w. w.0) c)) in
        let others : (q : Text) → q ≢ x.1 → files.file t q ≡ files.file s q =
          (λ q n. ap (λ w. files.file w.1 q) (sym c) ∙ saves.copy_rest x.0 x.1 s q n) in
        record_saved-Saved x expected s t (rest t) copied others later off (ih others)

    save_all-Saved :
        (dir : Text) (i : ℕ) (fs : List Text) (s : S)
        → i + length fs ≤ u32_limit
        → OffOriginals (copies_of dir i fs)
        → NoCopies (copies_of dir i fs) s
        → Saved (copies_of dir i fs) s (save_all sys dir i fs s)
    unfolding save_all copies_of
    save_all-Saved dir i [] s b off fresh = (refl, λ x m. absurd m, λ q n. refl)
    save_all-Saved dir i (o ∷ fs) s b off fresh =
        let c = join dir (copy_name i o) in
        let later : (y : Text × Text) → In y (copies_of dir (1 + i) fs) → c ≢ y.1 =
          (λ y m. copies_of-later dir i (1 + i) o fs y (omega arith) (omega (arith, b)) m) in
        let apart : (y : Text × Text) → In y (copies_of dir (1 + i) fs) → y.0 ≢ c =
          (λ y m e. off (o, c) y (inl refl) (inr m) (sym e)) in
        let rest_off : OffOriginals (copies_of dir (1 + i) fs) =
          (λ x y m n. off x y (inr m) (inr n)) in
        elim (Bool-cases (sys.exists o s)) [
          | inl e ↦ rw e (
              after_copy (o, c) (copies_of dir (1 + i) fs) s (sys.copy o c s).0 (sys.copy o c s).1
                (save_all sys dir (1 + i) fs) refl later apart
                (λ k.
                  save_all-Saved dir (1 + i) fs (sys.copy o c s).1 (omega (arith, b)) rest_off
                    (λ y m. k y.1 (λ q. later y m (sym q)) ∙ fresh y (inr m))))
          | inr e ↦ rw e (
              record_saved-Saved (o, c) (copies_of dir (1 + i) fs) s s _
                (fresh (o, c) (inl refl) ∙ sym (files.exists_none o s e)) (λ q n. refl) later apart
                (save_all-Saved dir (1 + i) fs s (omega (arith, b)) rest_off
                  (λ y m. fresh y (inr m))))
        ]

    -- Every file has the content that it had, or is absent as it was.
    abbrev pub AsBefore : List Text → S → Step sys → Type 0
    AsBefore fs s (ok u, (b, t)) = (o : Text) → In o fs → files.file t o ≡ files.file s o
    AsBefore fs s (err e, r) = Unit

    -- From any state that has kept the copies.
    abbrev pub GoesBack : List Text → S → Step sys → Type 0
    GoesBack fs s (ok u, (b, t)) =
        (now : S)
        → ((x : Text × Text) → In x b.saved → files.file now x.1 ≡ files.file t x.1)
        → AsBefore fs s (restore sys b now)
    GoesBack fs s (err e, r) = Unit

    restored-AsBefore :
        (b : Backup) (expected : List (Text × Text)) (fs : List Text) (s now : S)
        (r : Replacing sys)
        → ((o : Text) → In o fs → (c : Text) × In (o, c) expected)
        → ((x : Text × Text) → In x expected → files.file now x.1 ≡ files.file s x.0)
        → Back sys files expected now r
        → AsBefore fs s (keep_backup sys b r)
    restored-AsBefore b expected fs s now (ok u, t) named kept back =
        λ o i. let c = named o i in back.0 (o, c.0) c.1 ∙ kept (o, c.0) c.1
    restored-AsBefore b expected fs s now (err e, t) named kept back = tt

    after_saving :
        (b : Backup) (dir : Text) (s : S) (r : Saving sys)
        → (removes : (p : Text) (s : S) → files.file (sys.remove_path p s).1 p ≡ none)
        → Apart sys files (copies_of dir 0 b.files)
        → Saved (copies_of dir 0 b.files) s r
        → GoesBack b.files s (remember_saved sys dir b r)
    unfolding restore
    after_saving b dir s (err e, t) removes a z = tt
    after_saving b dir s (ok saved, t) removes a z = λ now kept.
        let expected = copies_of dir 0 b.files in
        let same : (x : Text × Text) → In x expected → files.file now x.1 ≡ files.file s x.0 =
          (λ x m. kept x (subst (λ l. In x l) (sym z.0) m) ∙ z.1 x m) in
        let back : Back sys files expected now (restore_all sys saved now) =
          subst (λ l. Back sys files expected now (restore_all sys l now)) (sym z.0)
            (restore_all-Back sys files removes expected now a) in
        restored-AsBefore (record b { snapshot_dir = some dir; saved = saved }) expected b.files s
          now (restore_all sys saved now) (λ o m. In-copies_of dir 0 b.files o m) same back

    Saved-from :
        (expected : List (Text × Text)) (s t : S) (r : Saving sys)
        → ((q : Text) → files.file t q ≡ files.file s q)
        → Saved expected t r
        → Saved expected s r
    Saved-from expected s t (ok saved, u) k z = (z.0, λ x i. z.1 x i ∙ k x.0, λ q n. z.2 q n ∙ k q)
    Saved-from expected s t (err e, u) k z = tt

    in_dir-GoesBack :
        (b : Backup) (dir : Text) (s : S) (o : Result Text (Unit {0})) (t : S)
        → sys.create_dir_0700 dir s ≡ (o, t)
        → (removes : (p : Text) (s : S) → files.file (sys.remove_path p s).1 p ≡ none)
        → Apart sys files (copies_of dir 0 b.files)
        → NoCopies (copies_of dir 0 b.files) s
        → length b.files ≤ u32_limit
        → GoesBack b.files s (in_dir sys dir b (o, t))
    in_dir-GoesBack b dir s (err e) t c removes a fresh l = tt
    in_dir-GoesBack b dir s (ok u) t c removes a fresh l =
        let same : (q : Text) → files.file t q ≡ files.file s q =
          (λ q. ap (λ w. files.file w.1 q) (sym c) ∙ saves.mkdir_rest dir s q) in
        let expected = copies_of dir 0 b.files in
        after_saving b dir s (save_all sys dir 0 b.files t) removes a (
          Saved-from expected s t (save_all sys dir 0 b.files t) same (
            save_all-Saved dir 0 b.files t (omega (arith, l)) a.copy_original
              (λ x m. same x.1 ∙ fresh x m)))

    -- Given calls that touch only their own paths and a removal that works, and copies that are not
    -- there yet, apart from the originals and the temporary files, of which no original is twice: a
    -- snapshot of no more files than 32 bits count either fails, or a restore after it, from any
    -- state that has kept the copies, either fails or gives every file its content at the snapshot,
    -- and removes it if it was absent.
    pub snapshot-GoesBack :
        (removes : (p : Text) (s : S) → files.file (sys.remove_path p s).1 p ≡ none) (b : Backup)
        (s : S)
        → Apart sys files (copies_of (join b.root_dir (sys.timestamp_component s)) 0 b.files)
        → NoCopies (copies_of (join b.root_dir (sys.timestamp_component s)) 0 b.files) s
        → length b.files ≤ u32_limit
        → GoesBack b.files s (snapshot sys b s)
    unfolding snapshot
    snapshot-GoesBack removes b s a fresh l =
        let dir = join b.root_dir (sys.timestamp_component s) in
        in_dir-GoesBack b dir s (sys.create_dir_0700 dir s).0 (sys.create_dir_0700 dir s).1 refl
          removes a fresh l
