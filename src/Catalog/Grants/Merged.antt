-- ===== src/Catalog/Grants/Merged.antt =====
-- What the grants of one path come to in the union of src/catalog.rs.
use mathlib.Core.List.{append-nil, append_assoc}
use Prim.Native.Nat.{bit_or}
use census.Prelude.{
  any_of_In, ◌||◌, false, ◌==◌, inr, ap, any-true, ◌↔◌, refl, inl, codes, arith, ◌∙◌, true, any, [],
  In, Bool-cases, ◌++◌, ◌∷◌, ◌≡◌, ℕ, Bool, Text, List, sym,
}
use census.Catalog.Grants.{
  file, dir, pattern_shape, Shape, union, ends_with_slash, SourcedFileGrant, shape_of,
  has_glob_metachar, absorb, ResolvedFileGrant, Access,
}

-- The path has a character of a glob.
pub record IsPattern (path : Text) : Type 0 where
  pub char : ℕ
  pub there : In char path
  pub globs : In char (codes "*?[")

abbrev pub EndsSlash : Text → Type 0
EndsSlash path = (before : Text) × (path ≡ before ++ (b'/' ∷ []))

-- The shape of a grant: a pattern by its path, else a directory when it is recursive or written
-- with a slash at the end, else a file.
pub data ShapeFits (path : Text) (recursive : Bool) : Shape → Type 0 where
  pattern_fits : IsPattern path → ShapeFits path recursive pattern_shape
  recursive_fits : ¬ IsPattern path → recursive ≡ true → ShapeFits path recursive dir
  slash_fits : ¬ IsPattern path → EndsSlash path → ShapeFits path recursive dir
  file_fits :
      ¬ IsPattern path → recursive ≡ false → ¬ EndsSlash path → ShapeFits path recursive file

-- The bitwise or of the accesses.
unfoldable pub accesses : Access → List ResolvedFileGrant → Access
accesses a [] = a
accesses a (g ∷ gs) = accesses (bit_or a g.access) gs

unfoldable pub all_sources : List ResolvedFileGrant → List SourcedFileGrant
all_sources [] = []
all_sources (g ∷ gs) = g.sources ++ all_sources gs

-- The shape is the first grant's own when it is the only one of its path.
abbrev pub MergedShape : ResolvedFileGrant → List ResolvedFileGrant → ResolvedFileGrant → Type 0
MergedShape g [] e = e.shape ≡ g.shape
MergedShape g (h ∷ gs) e = ShapeFits g.path e.recursive e.shape

-- One grant in the place of some grants of one path.
pub record Merged (g : ResolvedFileGrant) (gs : List ResolvedFileGrant) (e : ResolvedFileGrant)
    : Type 0 where
  pub path : e.path ≡ g.path
  pub access : e.access ≡ accesses g.access gs
  pub recursive : e.recursive ≡ any (λ (h : ResolvedFileGrant). h.recursive) (g ∷ gs)
  pub shape : MergedShape g gs e
  pub sources : e.sources ≡ all_sources (g ∷ gs)

glob_char_iff : (c : ℕ) → ((c == b'*' || c == b'?' || c == b'[') ≡ true) ↔ In c (codes "*?[")
glob_char_iff c = (
  λ h. elim (Bool-cases (c == b'*')) [
    | inl a ↦ inl (ground (arith, a))
    | inr a ↦ (elim (Bool-cases (c == b'?')) [
      | inl b ↦ inr (inl (ground (arith, b)))
      | inr b ↦ inr (inr (inl (ground (arith, a, b, h))))
    ])
  ],
  elim [
    | inl e ↦ ground (arith, e)
    | inr (inl e) ↦ ground (arith, e)
    | inr (inr (inl e)) ↦ ground (arith, e)
    | inr (inr (inr e)) ↦ absurd e
  ],
)

has_glob_metachar_iff : (path : Text) → (has_glob_metachar path ≡ true) ↔ IsPattern path
unfolding has_glob_metachar
has_glob_metachar_iff path = (
  λ h.
      let r = any-true (λ c. c == b'*' || c == b'?' || c == b'[') path h in
      record { char = r.0; there = r.1; globs = (glob_char_iff r.0).0 r.2 },
  λ p.
      any_of_In (λ c. c == b'*' || c == b'?' || c == b'[') p.char path p.there
        ((glob_char_iff p.char).1 p.globs),
)

ends_with_slash-append : (before : Text) → ends_with_slash (before ++ (b'/' ∷ [])) ≡ true
ends_with_slash-append [] = refl
ends_with_slash-append (c ∷ []) = refl
ends_with_slash-append (c ∷ d ∷ before) = ends_with_slash-append (d ∷ before)

ends_with_slash-EndsSlash : (path : Text) → ends_with_slash path ≡ true → EndsSlash path
ends_with_slash-EndsSlash [] h = cc
ends_with_slash-EndsSlash (c ∷ []) h =
    let slash : c ≡ b'/' = ground (arith, h) in ([], ap (λ x. x ∷ []) slash)
ends_with_slash-EndsSlash (c ∷ d ∷ s) h =
    let r = ends_with_slash-EndsSlash (d ∷ s) h in (c ∷ r.0, ap (λ t. c ∷ t) r.1)

ends_with_slash_iff : (path : Text) → (ends_with_slash path ≡ true) ↔ EndsSlash path
ends_with_slash_iff path = (
  λ h. ends_with_slash-EndsSlash path h,
  λ e. ap ends_with_slash e.1 ∙ ends_with_slash-append e.0,
)

shape_of-ShapeFits :
    (path : Text) (access : Access) (recursive : Bool)
    → ShapeFits path recursive
        (shape_of (record { path = path; access = access; recursive = recursive }))
unfolding shape_of
shape_of-ShapeFits path access recursive = elim (Bool-cases (has_glob_metachar path)) [
  | inl e ↦ rw e (pattern_fits ((has_glob_metachar_iff path).0 e))
  | inr e ↦
      let plain : ¬ IsPattern path = λ p. cc (e, (has_glob_metachar_iff path).1 p) in
      elim (Bool-cases recursive) [
        | inl r ↦ rw (e, r) (recursive_fits plain refl)
        | inr r ↦ elim (Bool-cases (ends_with_slash path)) [
          | inl s ↦ rw (e, r, s) (slash_fits plain ((ends_with_slash_iff path).0 s))
          | inr s ↦
              rw (e, r, s) (file_fits plain refl (λ t. cc (s, (ends_with_slash_iff path).1 t)))
        ]
      ]
]

-- Absorbing one grant after another.
unfoldable pub absorb_all : ResolvedFileGrant → List ResolvedFileGrant → ResolvedFileGrant
absorb_all e [] = e
absorb_all e (g ∷ gs) = absorb_all (absorb e g) gs

absorb-ShapeFits :
    (e g : ResolvedFileGrant) → ShapeFits e.path (absorb e g).recursive (absorb e g).shape
unfolding absorb
absorb-ShapeFits e g =
    shape_of-ShapeFits e.path (union e.access g.access) (e.recursive || g.recursive)

absorb_all-ShapeFits :
    (e : ResolvedFileGrant) (gs : List ResolvedFileGrant)
    → ShapeFits e.path e.recursive e.shape
    → ShapeFits e.path (absorb_all e gs).recursive (absorb_all e gs).shape
unfolding absorb_all absorb
absorb_all-ShapeFits e [] h = h
absorb_all-ShapeFits e (g ∷ gs) h = absorb_all-ShapeFits (absorb e g) gs (absorb-ShapeFits e g)

absorb_all-shape :
    (e : ResolvedFileGrant) (gs : List ResolvedFileGrant) → MergedShape e gs (absorb_all e gs)
unfolding absorb_all absorb
absorb_all-shape e [] = refl
absorb_all-shape e (g ∷ gs) = absorb_all-ShapeFits (absorb e g) gs (absorb-ShapeFits e g)

absorb_all-path :
    (e : ResolvedFileGrant) (gs : List ResolvedFileGrant) → (absorb_all e gs).path ≡ e.path
unfolding absorb_all absorb
absorb_all-path e [] = refl
absorb_all-path e (g ∷ gs) = absorb_all-path (absorb e g) gs

absorb_all-access :
    (e : ResolvedFileGrant) (gs : List ResolvedFileGrant)
    → (absorb_all e gs).access ≡ accesses e.access gs
unfolding absorb_all absorb union accesses
absorb_all-access e [] = refl
absorb_all-access e (g ∷ gs) = absorb_all-access (absorb e g) gs

absorb_all-recursive :
    (e : ResolvedFileGrant) (gs : List ResolvedFileGrant)
    → (absorb_all e gs).recursive ≡ any (λ (h : ResolvedFileGrant). h.recursive) (e ∷ gs)
unfolding absorb_all absorb
absorb_all-recursive e [] = ground (arith)
absorb_all-recursive e (g ∷ gs) = let r = absorb_all-recursive (absorb e g) gs in ground (arith, r)

absorb_all-sources :
    (e : ResolvedFileGrant) (gs : List ResolvedFileGrant)
    → (absorb_all e gs).sources ≡ all_sources (e ∷ gs)
unfolding absorb_all absorb all_sources
absorb_all-sources e [] = sym (append-nil e.sources)
absorb_all-sources e (g ∷ gs) =
    absorb_all-sources (absorb e g) gs ∙ append_assoc e.sources g.sources (all_sources gs)

pub absorb_all-Merged :
    (e : ResolvedFileGrant) (gs : List ResolvedFileGrant) → Merged e gs (absorb_all e gs)
absorb_all-Merged e gs = record {
  path = absorb_all-path e gs;
  access = absorb_all-access e gs;
  recursive = absorb_all-recursive e gs;
  shape = absorb_all-shape e gs;
  sources = absorb_all-sources e gs;
}
