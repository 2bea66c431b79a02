-- ===== src/Apply/Rollback/Host.antt =====
-- States of a seam of src/apply.rs from which a restore brings the host back.
use census.Prelude.{err, ok, ◌≡◌, [], Result, Text, List, false, inl, inr, Bool-cases, ◌∙◌, refl}
use census.Apply.Seams.{Seam, covered, Touches, Restored, SameHost}
use census.Apply.Rollback.Covered.{Within}
use census.Apply.Exec.{and_then, then_if_ok}
use census.FileAccess.{Effect}

module _ {S A C : Type 0} (seam : Seam S A C) where
  -- The snapshot is there, and what it does not cover is as it was.
  pub record Recoverable (a : A) (v : Text → C) (saved : List Text) (s : S) : Type 0 where
    pub held : seam.holds a v saved s
    pub rest : (q : Text) → covered seam saved q ≡ false → seam.view s q ≡ v q

  pub Recoverable-Touches :
      (a : A) (v : Text → C) (saved ps : List Text) (s t : S)
      → Touches seam ps s t
      → Within seam ps saved
      → Recoverable a v saved s
      → Recoverable a v saved t
  Recoverable-Touches a v saved ps s t k w r = record {
    held = k.keeps_snapshot a v saved r.held;
    rest = λ q n. elim (Bool-cases (covered seam ps q)) [
      | inl e ↦ absurd (cc (n, w q e))
      | inr e ↦ k.keeps_rest q e ∙ r.rest q n
    ];
  }

  pub Touches-nothing : (ps : List Text) (s t : S) → Touches seam [] s t → Touches seam ps s t
  Touches-nothing ps s t k = record {
    keeps_snapshot = k.keeps_snapshot;
    keeps_rest = λ q n. k.keeps_rest q refl;
  }

  Touches-trans :
      (ps : List Text) (s t u : S) → Touches seam ps s t → Touches seam ps t u → Touches seam ps s u
  Touches-trans ps s t u k l = record {
    keeps_snapshot = λ a v saved h. l.keeps_snapshot a v saved (k.keeps_snapshot a v saved h);
    keeps_rest = λ q n. l.keeps_rest q n ∙ k.keeps_rest q n;
  }

  -- The operation touches nothing but the paths, whether it succeeds or not.
  abbrev pub Local : {E : Type 0} → List Text → Effect E S → Type 0
  Local ps e = (s : S) → Touches seam ps s (e s).1

  then_if_ok-Touches :
      {E : Type 0} (ps : List Text) (s t : S) (r : Result E (Unit {0})) (k : Effect E S)
      → Touches seam ps s t
      → Local ps k
      → Touches seam ps s (then_if_ok r t k).1
  then_if_ok-Touches ps s t (ok u) k h l = Touches-trans ps s t (k t).1 h (l t)
  then_if_ok-Touches ps s t (err e) k h l = h

  pub and_then-Local :
      {E : Type 0} (ps : List Text) (m k : Effect E S)
      → Local ps m
      → Local ps k
      → Local ps (and_then m k)
  and_then-Local ps m k h l s = then_if_ok-Touches ps s (m s).1 (m s).0 k (h s) l

  -- A successful restore brings everything back.
  pub Restored-SameHost :
      (start s t : S) (saved : List Text)
      → Recoverable (seam.base start) (seam.view start) saved s
      → Restored seam (seam.base start) (seam.view start) saved s t
      → SameHost seam start t
  Restored-SameHost start s t saved r k = record {
    same_base = k.base_back;
    same_view = λ q. elim (Bool-cases (covered seam saved q)) [
      | inl e ↦ k.view_back q e
      | inr e ↦ k.rest_kept q e ∙ r.rest q e
    ];
  }
