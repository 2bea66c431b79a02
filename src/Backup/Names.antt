-- ===== src/Backup/Names.antt =====
-- The names of the copies that `Backup::snapshot` of src/backup.rs makes are different.
use census.Prelude.{
  parse_digits-print_u32, print_u32-AreDigits, ◌≢◌, ◌≤◌, print_u32, inr, ◌∙◌, refl, length, inl, ap,
  ◌==◌, u32_limit, some, if◌then◌else◌, arith, [], In, Bool-cases, ◌+◌, ◌∷◌, ◌≡◌, push_digit, List,
  ◌<◌, ◌++◌, ℕ, parse_digits, join, Text, AreDigits, sym,
}
use census.Backup.{sanitize, pad_3, copy_name}

unfoldable before_dash : Text → Text
before_dash [] = []
before_dash (c ∷ s) = let rest = before_dash s in if c == b'-' then [] else c ∷ rest

before_dash-digits : (w r : Text) → AreDigits w → before_dash (w ++ (b'-' ∷ r)) ≡ w
unfolding before_dash AreDigits
before_dash-digits [] r a = refl
before_dash-digits (c ∷ w) r a = ground (arith, a.0, before_dash-digits w r a.1)

pad_3-AreDigits : (w : Text) → AreDigits w → AreDigits (pad_3 w)
unfolding AreDigits
pad_3-AreDigits [] a = (refl, (refl, (refl, tt)))
pad_3-AreDigits (c ∷ []) a = (refl, (refl, a))
pad_3-AreDigits (c ∷ d ∷ []) a = (refl, a)
pad_3-AreDigits (c ∷ d ∷ e ∷ w) a = a

parse_digits-pad_3 : (w : Text) → parse_digits (some 0) (pad_3 w) ≡ parse_digits (some 0) w
unfolding parse_digits push_digit
parse_digits-pad_3 [] = refl
parse_digits-pad_3 (c ∷ []) = refl
parse_digits-pad_3 (c ∷ d ∷ []) = refl
parse_digits-pad_3 (c ∷ d ∷ e ∷ w) = refl

-- The index is read back from the name.
copy_name-index :
    (i : ℕ) (o : Text)
    → i < u32_limit
    → parse_digits (some 0) (before_dash (copy_name i o)) ≡ some i
unfolding copy_name
copy_name-index i o h =
    ap (parse_digits (some 0)) (
      before_dash-digits (pad_3 (print_u32 i)) (sanitize o)
        (pad_3-AreDigits (print_u32 i) (print_u32-AreDigits i)))
    ∙ (parse_digits-pad_3 (print_u32 i) ∙ parse_digits-print_u32 i h)

copy_name-injective :
    (i j : ℕ) (o p : Text) → i < u32_limit → j < u32_limit → copy_name i o ≡ copy_name j p → i ≡ j
copy_name-injective i j o p h k e =
    let same : some i ≡ some j =
      sym (copy_name-index i o h)
      ∙ (ap (λ n. parse_digits (some 0) (before_dash n)) e ∙ copy_name-index j p k) in
    cc same

join-injective : (dir f g : Text) → join dir f ≡ join dir g → f ≡ g
unfolding join
join-injective [] f g e = e
join-injective (c ∷ []) f g e = elim (Bool-cases (c == b'/')) [
  | inl t ↦ cc (rw t at e)
  | inr t ↦ cc (rw t at e)
]
join-injective (c ∷ d ∷ dir) f g e = join-injective (d ∷ dir) f g (cc e)

-- The originals with their copies, numbered from `i`.
unfoldable pub copies_of : Text → ℕ → List Text → List (Text × Text)
copies_of dir i [] = []
copies_of dir i (o ∷ files) = (o, join dir (copy_name i o)) ∷ copies_of dir (1 + i) files

-- No later copy has the path of an earlier one.
pub copies_of-later :
    (dir : Text) (i k : ℕ) (o : Text) (files : List Text) (x : Text × Text)
    → i < k
    → k + length files ≤ u32_limit
    → In x (copies_of dir k files)
    → join dir (copy_name i o) ≢ x.1
unfolding copies_of
copies_of-later dir i k o [] x h b m e = m
copies_of-later dir i k o (p ∷ files) x h b (inl q) e =
    let same : join dir (copy_name i o) ≡ join dir (copy_name k p) =
      e ∙ ap (λ (y : Text × Text). y.1) q in
    let index =
      copy_name-injective i k o p (omega (arith, h, b)) (omega (arith, b))
        (join-injective dir _ _ same) in
    omega (arith, h, index)
copies_of-later dir i k o (p ∷ files) x h b (inr m) e =
    copies_of-later dir i (1 + k) o files x (omega (arith, h)) (omega (arith, b)) m e

pub In-copies_of :
    (dir : Text) (i : ℕ) (files : List Text) (o : Text)
    → In o files
    → (c : Text) × In (o, c) (copies_of dir i files)
unfolding copies_of
In-copies_of dir i [] o m = absurd m
In-copies_of dir i (p ∷ files) o (inl e) =
    (join dir (copy_name i p), inl (ap (λ w. (w, join dir (copy_name i p))) e))
In-copies_of dir i (p ∷ files) o (inr m) =
    let r = In-copies_of dir (1 + i) files o m in (r.0, inr r.1)
