-- ===== src/Catalog/Paths.antt =====
-- `path_at_or_under` (src/catalog.rs): a path at or below another, on a component boundary.
use census.Prelude.{
  ◌≡◌, ◌↔◌, Bool, true, false, Option, none, some, [], ◌∷◌, ◌++◌, arith, Text, str_eq, str_eq_iff,
  strip_prefix, strip_prefix_iff, ◌==◌, if◌then◌else◌, ◌⊎◌, inl, inr, Bool-cases,
}

-- `strip_suffix('/').unwrap_or(s)`
unfoldable pub trim_slash : Text → Text
trim_slash [] = []
trim_slash (c ∷ []) = if c == b'/' then [] else c ∷ []
trim_slash (c ∷ d ∷ s) = c ∷ trim_slash (d ∷ s)

unfoldable pub starts_with_slash : Option Text → Bool
starts_with_slash none = false
starts_with_slash (some []) = false
starts_with_slash (some (c ∷ s)) = c == b'/'

unfoldable pub path_at_or_under : Text → Text → Bool
unfolding starts_with_slash
path_at_or_under parent child =
    let parent = trim_slash parent in
    if str_eq parent child then true else starts_with_slash (strip_prefix parent child)

-- `child` is `parent`, or `parent` followed by a slash and more.
abbrev pub AtOrUnder : Text → Text → Type 0
AtOrUnder parent child = (parent ≡ child) ⊎ ((rest : Text) × (child ≡ parent ++ (b'/' ∷ rest)))

starts_with_slash-some :
    (o : Option Text) → starts_with_slash o ≡ true → (r : Text) × (o ≡ some (b'/' ∷ r))
unfolding starts_with_slash
starts_with_slash-some none h = cc
starts_with_slash-some (some []) h = cc
starts_with_slash-some (some (c ∷ s)) h = (s, ground arith)

-- The matcher accepts a child exactly when the child is the parent, less one trailing slash, or
-- continues it after a slash: a textual sibling such as /etc/apparmor.d is not under /etc/app.
pub path_at_or_under_iff :
    (parent child : Text)
    → (path_at_or_under parent child ≡ true) ↔ AtOrUnder (trim_slash parent) child
unfolding path_at_or_under
path_at_or_under_iff parent child = (
  λ h. elim (Bool-cases (str_eq (trim_slash parent) child)) [
    | inl e ↦ inl ((str_eq_iff _ _).0 e)
    | inr e ↦
        let s = starts_with_slash-some (strip_prefix (trim_slash parent) child) (rw e at h) in
        inr (s.0, (strip_prefix_iff (trim_slash parent) child (b'/' ∷ s.0)).0 s.1)
  ],
  elim [
    | inl e ↦ rw ((str_eq_iff _ _).1 e)
    | inr r ↦ elim (Bool-cases (str_eq (trim_slash parent) child)) [
      | inl e ↦ rw e
      | inr e ↦ rw (e, (strip_prefix_iff (trim_slash parent) child (b'/' ∷ r.0)).1 r.1)
    ]
  ],
)
