-- ===== src/Plan/Groups/Owners.antt =====
-- The GID owners that `diff_groups_via_inspector` collects (src/plan.rs).
use census.Prelude.{
  sym, ◌∙◌, ap, Option-cases, ◌∷◌, arith, [], ◌⊎◌, none, inr, In, ◌≡◌, some, inl, Text, Option, ℕ,
}
use census.Plan.Groups.{owner_of, collect_owners, GidOwners}
use census.Prelude.Map.{Map}

-- Every owner that a list holds is the inspector's.
abbrev SoundOwners : (ℕ → Option Text) → GidOwners → Type 0
SoundOwners owner owners = (g : ℕ) (o : Text) → owner_of g owners ≡ some o → owner g ≡ some o

abbrev owner_step : (ℕ → Option Text) → ℕ → GidOwners → GidOwners
owner_step owner pin owners = elim (owner_of pin owners) [
  | some o ↦ owners
  | none ↦ elim (owner pin) [ none ↦ owners | some o ↦ (pin, o) ∷ owners ]
]

module _ (owner : ℕ → Option Text) where
  owner_step-cases :
      (pin : ℕ) (owners : GidOwners)
      → (owner_step owner pin owners ≡ owners)
          × ((o : Text) → owner pin ≡ some o → (p : Text) × (owner_of pin owners ≡ some p))
        ⊎ ((o : Text) × (owner pin ≡ some o)
            × (owner_of pin owners ≡ none)
            × (owner_step owner pin owners ≡ (pin, o) ∷ owners))
  owner_step-cases pin owners = elim (Option-cases (owner_of pin owners)) [
    | inr k ↦ inl (ground (arith, k.1), λ o g. k)
    | inl e ↦ elim (Option-cases (owner pin)) [
      | inl g ↦ inl (ground (arith, e, g), λ o h. cc)
      | inr g ↦ inr (g.0, g.1, e, ground (arith, e, g.1))
    ]
  ]

  owner_step-Sound :
      (pin : ℕ) (owners : GidOwners)
      → SoundOwners owner owners
      → SoundOwners owner (owner_step owner pin owners)
  unfolding owner_of
  owner_step-Sound pin owners s g o h = elim (owner_step-cases pin owners) [
    | inl c ↦ s g o (rw c.0 at h)
    | inr c ↦
        let k : owner_of g ((pin, c.0) ∷ owners) ≡ some o = rw c.3 at h in ground (arith, s g o)
  ]

  owner_step-keeps :
      (pin : ℕ) (owners : GidOwners) (g : ℕ) (o : Text)
      → SoundOwners owner owners
      → owner_of g owners ≡ some o
      → owner_of g (owner_step owner pin owners) ≡ some o
  unfolding owner_of
  owner_step-keeps pin owners g o s h = elim (owner_step-cases pin owners) [
    | inl c ↦ rw c.0 h
    | inr c ↦ rw c.3 (ground (arith, s g o h))
  ]

  owner_step-finds :
      (pin : ℕ) (owners : GidOwners) (o : Text)
      → SoundOwners owner owners
      → owner pin ≡ some o
      → owner_of pin (owner_step owner pin owners) ≡ some o
  unfolding owner_of
  owner_step-finds pin owners o s h = elim (owner_step-cases pin owners) [
    | inl c ↦ let k = c.1 o h in rw c.0 (cc (k.1, s pin k.0 k.1))
    | inr c ↦ rw c.3 (ground arith)
  ]

  collect_owners-keeps :
      (required : Map (Option ℕ)) (owners : GidOwners) (g : ℕ) (o : Text)
      → SoundOwners owner owners
      → owner_of g owners ≡ some o
      → owner_of g (collect_owners owner required owners) ≡ some o
  unfolding collect_owners
  collect_owners-keeps [] owners g o s h = h
  collect_owners-keeps ((n, none) ∷ required) owners g o s h =
      collect_owners-keeps required owners g o s h
  collect_owners-keeps ((n, some p) ∷ required) owners g o s h =
      collect_owners-keeps required (owner_step owner p owners) g o (owner_step-Sound p owners s)
        (owner_step-keeps p owners g o s h)

  collect_owners-Sound :
      (required : Map (Option ℕ)) (owners : GidOwners)
      → SoundOwners owner owners
      → SoundOwners owner (collect_owners owner required owners)
  unfolding collect_owners
  collect_owners-Sound [] owners s = s
  collect_owners-Sound ((n, none) ∷ required) owners s = collect_owners-Sound required owners s
  collect_owners-Sound ((n, some p) ∷ required) owners s =
      collect_owners-Sound required (owner_step owner p owners) (owner_step-Sound p owners s)

  collect_owners-finds :
      (required : Map (Option ℕ)) (owners : GidOwners) (n : Text) (p : ℕ) (o : Text)
      → SoundOwners owner owners
      → In (n, some p) required
      → owner p ≡ some o
      → owner_of p (collect_owners owner required owners) ≡ some o
  unfolding collect_owners
  collect_owners-finds [] owners n p o s i h = absurd i
  collect_owners-finds ((m, none) ∷ required) owners n p o s (inl q) h =
      cc (ap (λ (x : Text × Option ℕ). x.1) q)
  collect_owners-finds ((m, none) ∷ required) owners n p o s (inr i) h =
      collect_owners-finds required owners n p o s i h
  collect_owners-finds ((m, some r) ∷ required) owners n p o s (inl q) h =
      let e : p ≡ r = cc (ap (λ (x : Text × Option ℕ). x.1) q) in
      collect_owners-keeps required (owner_step owner r owners) p o (owner_step-Sound r owners s)
        (rw e (owner_step-finds r owners o s (rw e at h)))
  collect_owners-finds ((m, some r) ∷ required) owners n p o s (inr i) h =
      collect_owners-finds required (owner_step owner r owners) n p o (owner_step-Sound r owners s)
        i h

  pub owner_of-collect_owners :
      (required : Map (Option ℕ)) (n : Text) (p : ℕ)
      → In (n, some p) required
      → owner_of p (collect_owners owner required []) ≡ owner p
  unfolding owner_of
  owner_of-collect_owners required n p i =
      let empty : SoundOwners owner [] = λ m f h. cc in
      elim (Option-cases (owner p)) [
        | inl g ↦ elim (Option-cases (owner_of p (collect_owners owner required []))) [
          | inl k ↦ k ∙ sym g
          | inr k ↦ absurd (cc (g, collect_owners-Sound required [] empty p k.0 k.1))
        ]
        | inr g ↦ collect_owners-finds required [] n p g.0 empty i g.1 ∙ sym g.1
      ]
