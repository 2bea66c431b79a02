-- ===== src/FileAccess/Routing.antt =====
-- The capability gate, `route_grants` of src/fileaccess.rs.
use census.FileAccess.{
  acl_capabilities, Capabilities, choose, chosen_or, route_grants, shape_requires,
}
use census.Prelude.{
  subst, ap, ok-injective, Option, ◌>>=◌, false, ◌⊎◌, ◌+◌, ℕ, ◌≡◌, refl, ◌↔◌, true, All, List, [],
  ◌∷◌, ok, Bool-cases, inl, inr, some, none, >>=-eq_ok,
}
use census.Catalog.Grants.{ResolvedFileGrant, Shape}

-- The index is of the first backend that has what the shape asks for.
abbrev pub FirstCovering : Shape → ℕ → List Capabilities → ℕ → Type 0
FirstCovering shape base [] idx = ⊥
FirstCovering shape base (caps ∷ backends) idx =
    ((shape_requires shape caps ≡ true) × (idx ≡ base))
    ⊎ ((shape_requires shape caps ≡ false) × FirstCovering shape (1 + base) backends idx)

-- Each grant, in order, with its backend.
abbrev pub Routed :
    List Capabilities → List ResolvedFileGrant → List (ℕ × ResolvedFileGrant) → Type 0
Routed backends [] [] = Unit
Routed backends [] (r ∷ routed) = ⊥
Routed backends (g ∷ grants) [] = ⊥
Routed backends (g ∷ grants) ((idx, h) ∷ routed) =
    (g ≡ h) × FirstCovering g.shape 0 backends idx × Routed backends grants routed

choose_iff :
    (shape : Shape) (base : ℕ) (backends : List Capabilities) (idx : ℕ)
    → (choose shape base backends ≡ some idx) ↔ FirstCovering shape base backends idx
unfolding choose
choose_iff shape base [] idx = (λ h. cc, λ h. absurd h)
choose_iff shape base (caps ∷ backends) idx = (
  λ h. elim (Bool-cases (shape_requires shape caps)) [
    | inl e ↦ inl (e, (let k : some base ≡ some idx = rw e at h in cc k))
    | inr e ↦ inr (e, (choose_iff shape (1 + base) backends idx).0 (rw e at h))
  ],
  elim [
    | inl c ↦ rw (c.0, c.1) refl
    | inr c ↦ rw c.0 ((choose_iff shape (1 + base) backends idx).1 c.1)
  ],
)

chosen_or-ok :
    (g : ResolvedFileGrant) (o : Option ℕ) (r : ℕ × ResolvedFileGrant)
    → chosen_or g o ≡ ok r
    → (o ≡ some r.0) × (g ≡ r.1)
chosen_or-ok g none r h = cc
chosen_or-ok g (some idx) r h =
    let k : (idx, g) ≡ r = ok-injective h in (ap (λ x. some x.0) k, ap (λ x. x.1) k)

-- Routing succeeds exactly with every grant, in order, paired with the first backend that can
-- enforce its shape; so it fails when one grant has none.
pub route_grants-ok_iff :
    (backends : List Capabilities) (grants : List ResolvedFileGrant)
    (routed : List (ℕ × ResolvedFileGrant))
    → (route_grants grants backends ≡ ok routed) ↔ Routed backends grants routed
unfolding route_grants
route_grants-ok_iff backends [] [] = (λ h. tt, λ h. refl)
route_grants-ok_iff backends [] (r ∷ routed) = (λ h. cc, λ h. absurd h)
route_grants-ok_iff backends (g ∷ grants) routed = (
  λ h.
      let a = >>=-eq_ok (chosen_or g (choose g.shape 0 backends)) _ routed h in
      let b = >>=-eq_ok (route_grants grants backends) _ routed a.2 in
      let c = chosen_or-ok g (choose g.shape 0 backends) a.0 a.1 in
      subst (Routed backends (g ∷ grants)) (ok-injective b.2) (
        c.1,
        (choose_iff g.shape 0 backends a.0.0).0 c.0,
        (route_grants-ok_iff backends grants b.0).0 b.1,
      ),
  back (λ rest. (route_grants-ok_iff backends grants rest).1) routed,
)
  where
    back :
        ((rest : List (ℕ × ResolvedFileGrant))
          → Routed backends grants rest
          → route_grants grants backends ≡ ok rest)
        → (routed : List (ℕ × ResolvedFileGrant)) → Routed backends (g ∷ grants) routed
        → (chosen_or g (choose g.shape 0 backends) >>= λ first.
            route_grants grants backends >>= λ rest. ok (first ∷ rest))
          ≡ ok routed
    back ih [] h = absurd h
    back ih ((idx, k) ∷ rest) h =
        rw ((choose_iff g.shape 0 backends idx).1 h.1) (rw (ih rest h.2, h.0) refl)

-- Grants that route to the open ACL backend alone are grants on directories.
pub acl-Routed-dir :
    (grants : List ResolvedFileGrant) (routed : List (ℕ × ResolvedFileGrant))
    → Routed (acl_capabilities ∷ []) grants routed
    → All (λ g. g.shape ≡ Shape.dir) grants
unfolding shape_requires acl_capabilities
acl-Routed-dir [] routed h = tt
acl-Routed-dir (g ∷ grants) [] h = absurd h
acl-Routed-dir (g ∷ grants) (r ∷ routed) h =
    (only_dir g.shape h.1, acl-Routed-dir grants routed h.2)
  where
    only_dir :
        (shape : Shape) → FirstCovering shape 0 (acl_capabilities ∷ []) r.0 → shape ≡ Shape.dir
    only_dir Shape.dir c = refl
    only_dir Shape.file c = elim c [ inl d ↦ cc (d.0) | inr d ↦ absurd d.1 ]
    only_dir Shape.pattern_shape c = elim c [ inl d ↦ cc (d.0) | inr d ↦ absurd d.1 ]
