-- ===== src/Sudoers/Atomic.antt =====
-- The atomic replacement that `write_fragment` (src/sudoers.rs) makes of a fragment.
use census.Prelude.{refl, join, ap, Text, ok, err, Result, ◌≡◌, ◌≢◌, Option, some, ◌∙◌, sym}
use census.Sudoers.Fragment.{
  already_exists, opened, visudo_spawn, open_failed, mode, cleanup_temp, write_temp,
  visudo_rejected, open_first, open_again, moded, not_spawned, rejected, validated, temp_path,
  write_fragment, filled, accepted, VisudoOutcome, OpenOutcome, activate, give_up, renamed, Written,
  SudoersError, FragmentSystem,
}

-- What the calls do to the files: each touches its own path, a rename moves, and `visudo -c` reads.
pub record LawfulFiles {S : Type 0} (sys : FragmentSystem S) : Type 0 where
  pub file : S → Text → Option Text
  pub open_lem : (p : Text) (s : S) (q : Text) → q ≢ p → file (sys.open_excl p s).1 q ≡ file s q
  pub write_lem :
      (p c : Text) (s : S) (q : Text) → q ≢ p → file (sys.write_all p c s).1 q ≡ file s q
  pub write_all_lem :
      (p c : Text) (s : S)
      → (sys.write_all p c s).0 ≡ ok tt
      → file (sys.write_all p c s).1 p ≡ some c
  pub mode_lem : (p : Text) (s : S) (q : Text) → file (sys.set_mode_0440 p s).1 q ≡ file s q
  pub visudo_lem : (p : Text) (s : S) (q : Text) → file (sys.visudo p s).1 q ≡ file s q
  pub rename_lem :
      (p d : Text) (s : S) → (sys.rename p d s).0 ≡ ok tt → file (sys.rename p d s).1 d ≡ file s p
  pub rename_rest :
      (p d : Text) (s : S) (q : Text) → q ≢ p → q ≢ d → file (sys.rename p d s).1 q ≡ file s q
  pub rename_failed :
      (p d : Text) (s : S) (e : Text) (q : Text)
      → (sys.rename p d s).0 ≡ err e
      → file (sys.rename p d s).1 q ≡ file s q
  pub remove_lem : (p : Text) (s : S) (q : Text) → q ≢ p → file (sys.remove_file p s).1 q ≡ file s q

module _ {S : Type 0} (sys : FragmentSystem S) (files : LawfulFiles sys) (tmp dest content : Text)
    (start : S) where
  -- Away from the temporary file, all is as it was.
  abbrev Intact : S → Type 0
  Intact s = (q : Text) → q ≢ tmp → files.file s q ≡ files.file start q

  -- `visudo` accepted the temporary file when it held the content.
  abbrev pub Checked : Type 0
  Checked = (v : S) × (files.file v tmp ≡ some content) × ((sys.visudo tmp v).0 ≡ accepted)

  -- The fragment holds the content, and nothing else has changed; or nothing has.
  abbrev pub Replaced : Written sys → Type 0
  Replaced (ok u, s) =
      Checked
      × (files.file s dest ≡ some content)
      × ((q : Text) → q ≢ tmp → q ≢ dest → files.file s q ≡ files.file start q)
  Replaced (err e, s) = Intact s

  give_up-Replaced : (e : SudoersError) (s : S) → Intact s → Replaced (give_up sys tmp e s)
  give_up-Replaced e s h q n = files.remove_lem tmp s q n ∙ h q n

  renamed-Replaced :
      (s : S) (r : Result Text (Unit {0})) (t : S)
      → sys.rename tmp dest s ≡ (r, t)
      → files.file s tmp ≡ some content
      → Intact s
      → Checked
      → Replaced (renamed sys tmp dest (r, t))
  renamed-Replaced s (ok u) t e c h k = (
    k,
    ap (λ w. files.file w.1 dest) (sym e) ∙ (files.rename_lem tmp dest s (ap (λ w. w.0) e) ∙ c),
    λ q n m. ap (λ w. files.file w.1 q) (sym e) ∙ (files.rename_rest tmp dest s q n m ∙ h q n),
  )
  renamed-Replaced s (err x) t e c h k = give_up-Replaced (activate dest x) t (λ q n.
      ap (λ w. files.file w.1 q) (sym e)
      ∙ (files.rename_failed tmp dest s x q (ap (λ w. w.0) e) ∙ h q n))

  validated-Replaced :
      (subject : Text) (s : S) (o : VisudoOutcome) (t : S)
      → sys.visudo tmp s ≡ (o, t)
      → files.file s tmp ≡ some content
      → Intact s
      → Replaced (validated sys tmp dest subject (o, t))
  validated-Replaced subject s o t e c h = go o e
    where
      kept : Intact t
      kept q n = ap (λ w. files.file w.1 q) (sym e) ∙ (files.visudo_lem tmp s q ∙ h q n)

      go :
          (o : VisudoOutcome)
          → sys.visudo tmp s ≡ (o, t)
          → Replaced (validated sys tmp dest subject (o, t))
      go accepted e =
          renamed-Replaced t (sys.rename tmp dest t).0 (sys.rename tmp dest t).1 refl
            (ap (λ w. files.file w.1 tmp) (sym e) ∙ (files.visudo_lem tmp s tmp ∙ c)) kept
            (s, c, ap (λ w. w.0) e)
      go (rejected x) e = give_up-Replaced (visudo_rejected subject x) t kept
      go (not_spawned x) e = give_up-Replaced (visudo_spawn x) t kept

  moded-Replaced :
      (subject : Text) (s : S) (r : Result Text (Unit {0})) (t : S)
      → sys.set_mode_0440 tmp s ≡ (r, t)
      → files.file s tmp ≡ some content
      → Intact s
      → Replaced (moded sys tmp dest subject (r, t))
  moded-Replaced subject s r t e c h = go r
    where
      kept : Intact t
      kept q n = ap (λ w. files.file w.1 q) (sym e) ∙ (files.mode_lem tmp s q ∙ h q n)

      go : (r : Result Text (Unit {0})) → Replaced (moded sys tmp dest subject (r, t))
      go (ok u) =
          validated-Replaced subject t (sys.visudo tmp t).0 (sys.visudo tmp t).1 refl
            (ap (λ w. files.file w.1 tmp) (sym e) ∙ (files.mode_lem tmp s tmp ∙ c)) kept
      go (err x) = give_up-Replaced (mode tmp x) t kept

  filled-Replaced :
      (subject : Text) (s : S) (r : Result Text (Unit {0})) (t : S)
      → sys.write_all tmp content s ≡ (r, t)
      → Intact s
      → Replaced (filled sys tmp dest subject (r, t))
  filled-Replaced subject s r t e h = go r e
    where
      kept : Intact t
      kept q n = ap (λ w. files.file w.1 q) (sym e) ∙ (files.write_lem tmp content s q n ∙ h q n)

      go :
          (r : Result Text (Unit {0}))
          → sys.write_all tmp content s ≡ (r, t)
          → Replaced (filled sys tmp dest subject (r, t))
      go (ok u) e =
          moded-Replaced subject t (sys.set_mode_0440 tmp t).0 (sys.set_mode_0440 tmp t).1 refl
            (ap (λ w. files.file w.1 tmp) (sym e)
              ∙ files.write_all_lem tmp content s (ap (λ w. w.0) e))
            kept
      go (err x) e = give_up-Replaced (write_temp tmp x) t kept

  opened_on-Replaced :
      (subject : Text) (t : S)
      → Intact t
      → Replaced (filled sys tmp dest subject (sys.write_all tmp content t))
  opened_on-Replaced subject t h =
      filled-Replaced subject t (sys.write_all tmp content t).0 (sys.write_all tmp content t).1 refl
        h

  open_again-Replaced :
      (subject : Text) (o : OpenOutcome) (t : S)
      → Intact t
      → Replaced (open_again sys tmp dest content subject (o, t))
  open_again-Replaced subject opened t h = opened_on-Replaced subject t h
  open_again-Replaced subject already_exists t h = h
  open_again-Replaced subject (open_failed x) t h = h

  open_first-Replaced :
      (subject : Text) (o : OpenOutcome) (t : S)
      → Intact t
      → Replaced (open_first sys tmp dest content subject (o, t))
  open_first-Replaced subject opened t h = opened_on-Replaced subject t h
  open_first-Replaced subject already_exists t h =
      let cleaned = cleanup_temp sys tmp t in
      open_again-Replaced subject (sys.open_excl tmp cleaned).0 (sys.open_excl tmp cleaned).1
        (λ q n. files.open_lem tmp cleaned q n ∙ (files.remove_lem tmp t q n ∙ h q n))
  open_first-Replaced subject (open_failed x) t h = h

-- Given calls that touch only the paths they name, a write of a fragment either succeeds, and then
-- `visudo` accepted the content, the fragment holds it, and no path but the fragment and the
-- temporary file has changed; or it fails, and then no path but the temporary file has changed.
pub write_fragment-Replaced :
    {S : Type 0} (sys : FragmentSystem S) (files : LawfulFiles sys)
    (dir filename content subject : Text) (s : S)
    → Replaced sys files
        (temp_path sys dir filename)
        (join dir filename)
        content
        s
        (write_fragment sys dir filename content subject s)
unfolding write_fragment
write_fragment-Replaced sys files dir filename content subject s =
    let tmp = temp_path sys dir filename in
    open_first-Replaced sys files tmp (join dir filename) content s subject (sys.open_excl tmp s).0
      (sys.open_excl tmp s).1 (λ q n. files.open_lem tmp s q n)
