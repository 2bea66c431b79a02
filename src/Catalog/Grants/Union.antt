-- ===== src/Catalog/Grants/Union.antt =====
-- `union_resolved_file_grants` of src/catalog.rs, path by path.
use census.Prelude.{
  sym, subst, filter, ◌⊎◌, arith, In, Distinct, inr, ◌∙◌, ap, str_eq_iff, inl, [], Bool-cases,
  str_eq, refl, none, if◌then◌else◌, ◌∷◌, ◌≡◌, some, map, find, Text, Option, List,
}
use census.Catalog.Grants.{
  union_resolved_file_grants, union_into, ResolvedFileGrant, merge_grant, absorb,
}
use census.Catalog.Grants.Merged.{absorb_all-Merged, absorb_all, Merged}

abbrev pub grant_at : Text → List ResolvedFileGrant → Option ResolvedFileGrant
grant_at p out = find (λ e. str_eq e.path p) out

abbrev absorb_into : Option ResolvedFileGrant → ResolvedFileGrant → ResolvedFileGrant
absorb_into none g = g
absorb_into (some e) g = absorb e g

-- The first grant of the path, widened by every later one of the same path.
unfoldable widened :
    Text → Option ResolvedFileGrant → List ResolvedFileGrant → Option ResolvedFileGrant
widened p o [] = o
widened p o (g ∷ gs) = widened p (if str_eq g.path p then some (absorb_into o g) else o) gs

paths : List ResolvedFileGrant → List Text
paths l = map (λ (g : ResolvedFileGrant). g.path) l

absorb-path : (e g : ResolvedFileGrant) → (absorb e g).path ≡ e.path
unfolding absorb
absorb-path e g = refl

grant_at-merge_grant :
    (p : Text) (g : ResolvedFileGrant) (out : List ResolvedFileGrant)
    → grant_at p (merge_grant g out)
      ≡ (if str_eq g.path p then some (absorb_into (grant_at p out) g) else grant_at p out)
unfolding merge_grant
grant_at-merge_grant p g [] = refl
grant_at-merge_grant p g (e ∷ out) = ground (
  arith,
  absorb-path e g,
  grant_at-merge_grant p g out,
  str_eq_iff e.path g.path,
  str_eq_iff e.path p,
  str_eq_iff g.path p,
)

grant_at-union_into :
    (p : Text) (out gs : List ResolvedFileGrant)
    → grant_at p (union_into out gs) ≡ widened p (grant_at p out) gs
unfolding union_into widened
grant_at-union_into p out [] = refl
grant_at-union_into p out (g ∷ gs) =
    grant_at-union_into p (merge_grant g out) gs
    ∙ ap (λ o. widened p o gs) (grant_at-merge_grant p g out)

paths-merge_grant :
    (x : Text) (g : ResolvedFileGrant) (out : List ResolvedFileGrant)
    → In x (paths (merge_grant g out))
    → (x ≡ g.path) ⊎ In x (paths out)
unfolding merge_grant paths absorb
paths-merge_grant x g [] (inl e) = inl e
paths-merge_grant x g [] (inr i) = absurd i
paths-merge_grant x g (e ∷ out) i = elim (Bool-cases (str_eq e.path g.path)) [
  | inl q ↦ inr (rw q at i)
  | inr q ↦ (elim (rw q at i) [
    | inl a ↦ inr (inl a)
    | inr b ↦ (elim (paths-merge_grant x g out b) [ inl c ↦ inl c | inr d ↦ inr (inr d) ])
  ])
]

merge_grant-Distinct :
    (g : ResolvedFileGrant) (out : List ResolvedFileGrant)
    → Distinct (paths out)
    → Distinct (paths (merge_grant g out))
unfolding merge_grant paths absorb
merge_grant-Distinct g [] d = (λ i. i, tt)
merge_grant-Distinct g (e ∷ out) d = elim (Bool-cases (str_eq e.path g.path)) [
  | inl q ↦ rw q d
  | inr q ↦ rw q (
    λ i. elim (paths-merge_grant e.path g out i) [
      | inl c ↦ cc (q, (str_eq_iff e.path g.path).1 c)
      | inr m ↦ d.0 m
    ],
    merge_grant-Distinct g out d.1,
  )
]

union_into-Distinct :
    (out gs : List ResolvedFileGrant) → Distinct (paths out) → Distinct (paths (union_into out gs))
unfolding union_into
union_into-Distinct out [] d = d
union_into-Distinct out (g ∷ gs) d =
    union_into-Distinct (merge_grant g out) gs (merge_grant-Distinct g out d)

-- The grants of one path, in their order.
abbrev pub of_path : Text → List ResolvedFileGrant → List ResolvedFileGrant
of_path p gs = filter (λ (g : ResolvedFileGrant). str_eq g.path p) gs

-- What is found for a path, given its grants.
abbrev pub PathUnion : List ResolvedFileGrant → Option ResolvedFileGrant → Type 0
PathUnion [] o = o ≡ none
PathUnion (g ∷ gs) o = (e : ResolvedFileGrant) × (o ≡ some e) × Merged g gs e

widened-some :
    (p : Text) (e : ResolvedFileGrant) (gs : List ResolvedFileGrant)
    → widened p (some e) gs ≡ some (absorb_all e (of_path p gs))
unfolding widened absorb_all
widened-some p e [] = refl
widened-some p e (g ∷ gs) = elim (Bool-cases (str_eq g.path p)) [
  | inl t ↦ rw t (widened-some p (absorb e g) gs)
  | inr t ↦ rw t (widened-some p e gs)
]

widened-PathUnion :
    (p : Text) (gs : List ResolvedFileGrant) → PathUnion (of_path p gs) (widened p none gs)
unfolding widened
widened-PathUnion p [] = refl
widened-PathUnion p (g ∷ gs) = elim (Bool-cases (str_eq g.path p)) [
  | inl t ↦
      rw t (absorb_all g (of_path p gs), widened-some p g gs, absorb_all-Merged g (of_path p gs))
  | inr t ↦ rw t (widened-PathUnion p gs)
]

-- The union has no path twice and, for each path, nothing if no grant has it; otherwise one grant
-- with the bitwise or of the accesses of the path's grants, recursive if one of them is, with the
-- sources of all of them in their order, and, when there are several, the shape that its path and
-- its recursion give.
pub union_resolved-grant_at :
    (gs : List ResolvedFileGrant)
    → Distinct (map (λ (g : ResolvedFileGrant). g.path) (union_resolved_file_grants gs))
      × ((p : Text) → PathUnion (of_path p gs) (grant_at p (union_resolved_file_grants gs)))
unfolding union_resolved_file_grants paths
union_resolved-grant_at gs = (
  union_into-Distinct [] gs tt,
  λ p.
      subst (PathUnion (of_path p gs)) (sym (grant_at-union_into p [] gs)) (widened-PathUnion p gs),
)
