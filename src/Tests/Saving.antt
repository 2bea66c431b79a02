-- ===== src/Tests/Saving.antt =====
-- The restore of src/backup.rs on a small file system.
use census.Prelude.{
  arith, digits, inr, sym, subst, inl, ◌∙◌, str_eq_iff, refl, join, ◌≢◌, segments, none, true, some,
  ok, false, err, components, [], ◌≡◌, ◌∷◌, parent_and_name, codes, Result, In, Bool, str_eq, Text,
  Option,
}
use census.Backup.Restored.{Apart, restore_all-Back, Back}
use census.Backup.{
  sanitize, save_all, restore, new_backup, copy_name, snapshot, Step, Backup, restore_temp,
  atomic_replace, restore_all, BackupSystem,
}
use census.Tests.Tools.{set-same, open_of, no_files, kept_or_empty, set-other, set, Files}
use census.Backup.Replace.{LawfulCopies}
use census.Sudoers.Fragment.{removed}
use census.Backup.Snapshot.{NoCopies, snapshot-GoesBack, GoesBack, LawfulSaves}
use census.Backup.Names.{copies_of}
use census.Sudoers.{is_ascii_alphanumeric}

abbrev exists_of : Option Text → Bool
exists_of none = false
exists_of (some c) = true

abbrev content_of : Option Text → Result Text Text
content_of none = err (codes "no file")
content_of (some c) = ok c

abbrev copies : BackupSystem Files
copies = record {
  timestamp_component = λ s. codes "1";
  create_dir_0700 = λ p s. (ok tt, s);
  exists = λ p s. exists_of (s p);
  copy = λ p d s. (ok tt, set d (s p) s);
  read_file = λ p s. content_of (s p);
  open_restore_temp = λ p s. (open_of (s p), set p (kept_or_empty (s p)) s);
  write_temp = λ p c s. (ok tt, set p (some c) s);
  preserve_dest_permissions = λ p d s. (ok tt, s);
  rename_over = λ p d s. (ok tt, set d (s p) (set p none s));
  remove_path = λ p s. (removed, set p none s);
  remove_dir_all = λ p s. s;
}

exists_of-some : (o : Option Text) → exists_of o ≡ true → (c : Text) × (o ≡ some c)
exists_of-some none e = absurd (cc e)
exists_of-some (some c) e = (c, refl)

exists_of-none : (o : Option Text) → exists_of o ≡ false → o ≡ none
exists_of-none none e = refl
exists_of-none (some c) e = absurd (cc e)

content_of-ok : (o : Option Text) (c : Text) → content_of o ≡ ok c → o ≡ some c
content_of-ok none c e = absurd (cc e)
content_of-ok (some d) c e = cc e

copies-LawfulCopies : LawfulCopies copies
copies-LawfulCopies = record {
  file = λ s. s;
  exists_some = λ p s. exists_of-some (s p);
  exists_none = λ p s. exists_of-none (s p);
  read_lem = λ p c s. content_of-ok (s p) c;
  open_rest = λ p s q n. set-other p (kept_or_empty (s p)) s q n;
  write_rest = λ p c s q n. set-other p (some c) s q n;
  write_lem = λ p c s e. set-same p (some c) s;
  preserve_lem = λ p d s q. refl;
  rename_lem = λ p d s e. set-same d (s p) (set p none s);
  rename_rest = λ p d s q n m. set-other d (s p) (set p none s) q m ∙ set-other p none s q n;
  remove_rest = λ p s q n. set-other p none s q n;
}

abbrev saved_passwd : Text × Text
saved_passwd = (codes "/etc/passwd", codes "/b/1/000-_etc_passwd")

-- The copy is there, and the file itself is lost.
abbrev lost : Files
lost = set saved_passwd.1 (some (codes "root")) no_files

differs : (p q : Text) → str_eq p q ≡ false → p ≢ q
differs p q e h = absurd (cc (e, (str_eq_iff p q).1 h))

from_one :
    (P : Text × Text → Text × Text → Type 0) (z x y : Text × Text)
    → P z z
    → In x (z ∷ [])
    → In y (z ∷ [])
    → P x y
from_one P z x y h (inl e) (inl d) = subst (λ w. P w y) (sym e) (subst (P z) (sym d) h)
from_one P z x y h (inl e) (inr d) = absurd d
from_one P z x y h (inr e) d = absurd e

passwd-Apart : Apart copies copies-LawfulCopies (saved_passwd ∷ [])
unfolding str_eq parent_and_name components segments join
passwd-Apart = record {
  copy_original = λ x y. from_one (λ v w. v.1 ≢ w.0) saved_passwd x y (differs _ _ refl);
  copy_temp =
      λ x y. from_one (λ v w. v.1 ≢ restore_temp copies w.0) saved_passwd x y (differs _ _ refl);
  original_temp =
      λ x y. from_one (λ v w. v.0 ≢ restore_temp copies w.0) saved_passwd x y (differs _ _ refl);
  once = (λ i. i, tt);
}

restore_all-Back_example :
    Back copies copies-LawfulCopies
      (saved_passwd ∷ [])
      lost
      (restore_all copies (saved_passwd ∷ []) lost)
unfolding copies-LawfulCopies str_eq
restore_all-Back_example =
    restore_all-Back copies copies-LawfulCopies (λ p s. set-same p none s) (saved_passwd ∷ []) lost
      passwd-Apart

-- The file is back.
restored_test : (restore_all copies (saved_passwd ∷ []) lost).1 saved_passwd.0 ≡ some (codes "root")
unfolding restore_all atomic_replace parent_and_name components segments join str_eq
restored_test = refl

copies-LawfulSaves : LawfulSaves copies copies-LawfulCopies
unfolding copies-LawfulCopies str_eq
copies-LawfulSaves = record {
  copy_lem = λ p d s e. set-same d (s p) s;
  copy_rest = λ p d s q n. set-other d (s p) s q n;
  mkdir_rest = λ d s q. refl;
}

abbrev one_file : Backup
one_file = new_backup (saved_passwd.0 ∷ []) (codes "/b")

abbrev intact : Files
intact = set saved_passwd.0 (some (codes "root")) no_files

one_copy : copies_of (codes "/b/1") 0 (saved_passwd.0 ∷ []) ≡ saved_passwd ∷ []
unfolding copies_of copy_name sanitize is_ascii_alphanumeric digits join
one_copy = refl

intact-NoCopies : NoCopies copies copies-LawfulCopies copies-LawfulSaves (saved_passwd ∷ []) intact
unfolding copies-LawfulCopies str_eq
intact-NoCopies x (inl e) = rw e refl
intact-NoCopies x (inr m) = absurd m

snapshot-GoesBack_example :
    GoesBack copies copies-LawfulCopies copies-LawfulSaves
      (saved_passwd.0 ∷ [])
      intact
      (snapshot copies one_file intact)
unfolding copies_of copy_name sanitize is_ascii_alphanumeric digits join copies-LawfulCopies str_eq
snapshot-GoesBack_example =
    snapshot-GoesBack copies copies-LawfulCopies copies-LawfulSaves (λ p s. set-same p none s)
      one_file intact passwd-Apart intact-NoCopies (omega arith)

abbrev restored_file : Option Text → Step copies → Option Text
restored_file s (ok u, (b, t)) = (restore copies b (set saved_passwd.0 s t)).1.1 saved_passwd.0
restored_file s (err e, r) = none

-- The file is changed after the snapshot, and restored.
changed_test :
    restored_file (some (codes "evil")) (snapshot copies one_file intact) ≡ some (codes "root")
unfolding snapshot save_all restore restore_all atomic_replace copy_name sanitize
    is_ascii_alphanumeric digits parent_and_name components segments join str_eq
changed_test = refl
