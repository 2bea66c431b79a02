-- ===== src/Plan/Groups/Live.antt =====
-- The live facts that `diff_groups_via_inspector` collects (src/plan.rs).
use census.Prelude.Map
use census.Prelude.{
  none, sym, str_eq_iff, ◌∙◌, arith, inr, Option-cases, some, inl, [], ◌∷◌, ◌≡◌, if◌then◌else◌, In,
  Bool-cases, List, Option, Text,
}
use census.Inspect.{GroupFacts}
use census.Prelude.Map.{Map}
use census.Plan.Groups.{collect_live}

-- Every fact that a map of live groups holds is the inspector's.
abbrev Sound : (Text → Option GroupFacts) → Map GroupFacts → Type 0
Sound group live = (n : Text) (f : GroupFacts) → Map.get n live ≡ some f → group n ≡ some f

abbrev live_step : (Text → Option GroupFacts) → Text → Map GroupFacts → Map GroupFacts
live_step group name live =
    if Map.contains_key name live
    then live
    else (elim (group name) [ none ↦ live | some facts ↦ Map.insert name facts live ])

get-nil : (n : Text) (f : GroupFacts) → Map.get n [] ≡ some f → ⊥
unfolding Map.get
get-nil n f h = cc

module _ (group : Text → Option GroupFacts) where
  live_step-keeps :
      (name : Text) (live : Map GroupFacts) (n : Text) (f : GroupFacts)
      → Sound group live
      → Map.get n live ≡ some f
      → Map.get n (live_step group name live) ≡ some f
  live_step-keeps name live n f s h = elim (Bool-cases (Map.contains_key name live)) [
    | inl e ↦ rw e h
    | inr e ↦ rw e (elim (Option-cases (group name)) [
      | inl g ↦ rw g h
      | inr g ↦ rw (g.1, Map.get-insert) (ground (arith, str_eq_iff name n, s n f))
    ])
  ]

  live_step-Sound :
      (name : Text) (live : Map GroupFacts)
      → Sound group live
      → Sound group (live_step group name live)
  live_step-Sound name live s n f h = elim (Bool-cases (Map.contains_key name live)) [
    | inl e ↦ s n f (rw e at h)
    | inr e ↦ elim (Option-cases (group name)) [
      | inl g ↦ s n f (rw (e, g) at h)
      | inr g ↦
          let k : Map.get n (Map.insert name g.0 live) ≡ some f = rw (e, g.1) at h in
          let k' = rw Map.get-insert at k in ground (arith, str_eq_iff name n, s n f)
    ]
  ]

  live_step-finds :
      (name : Text) (live : Map GroupFacts) (f : GroupFacts)
      → Sound group live
      → group name ≡ some f
      → Map.get name (live_step group name live) ≡ some f
  live_step-finds name live f s g = elim (Bool-cases (Map.contains_key name live)) [
    | inl e ↦ let k = Map.contains_key-get name live e in rw e (cc (k.1, s name k.0 k.1))
    | inr e ↦ rw (e, g, Map.get-insert) (ground (arith, str_eq_iff name name))
  ]

  collect_live-keeps :
      (names : List Text) (live : Map GroupFacts) (n : Text) (f : GroupFacts)
      → Sound group live
      → Map.get n live ≡ some f
      → Map.get n (collect_live group names live) ≡ some f
  unfolding collect_live
  collect_live-keeps [] live n f s h = h
  collect_live-keeps (m ∷ names) live n f s h =
      collect_live-keeps names (live_step group m live) n f (live_step-Sound m live s)
        (live_step-keeps m live n f s h)

  collect_live-Sound :
      (names : List Text) (live : Map GroupFacts)
      → Sound group live
      → Sound group (collect_live group names live)
  unfolding collect_live
  collect_live-Sound [] live s = s
  collect_live-Sound (m ∷ names) live s =
      collect_live-Sound names (live_step group m live) (live_step-Sound m live s)

  collect_live-finds :
      (names : List Text) (live : Map GroupFacts) (n : Text) (f : GroupFacts)
      → Sound group live
      → In n names
      → group n ≡ some f
      → Map.get n (collect_live group names live) ≡ some f
  unfolding collect_live
  collect_live-finds [] live n f s i g = absurd i
  collect_live-finds (m ∷ names) live n f s (inl q) g =
      collect_live-keeps names (live_step group m live) n f (live_step-Sound m live s)
        (rw q (live_step-finds m live f s (rw q at g)))
  collect_live-finds (m ∷ names) live n f s (inr i) g =
      collect_live-finds names (live_step group m live) n f (live_step-Sound m live s) i g

  -- A name that was asked has the inspector's answer.
  pub get-collect_live :
      (names : List Text) (n : Text)
      → In n names
      → Map.get n (collect_live group names []) ≡ group n
  get-collect_live names n i =
      let empty : Sound group [] = λ m f h. absurd (get-nil m f h) in
      elim (Option-cases (group n)) [
        | inl g ↦ elim (Option-cases (Map.get n (collect_live group names []))) [
          | inl k ↦ k ∙ sym g
          | inr k ↦ absurd (cc (g, collect_live-Sound names [] empty n k.0 k.1))
        ]
        | inr g ↦ collect_live-finds names [] n g.0 empty i g.1 ∙ sym g.1
      ]
