-- ===== src/Plan/Groups/Actions.antt =====
-- The actions of a `diff_groups` that succeeds (src/plan.rs).
use census.Prelude.Map
use census.Prelude.Map.{Map}
use census.Prelude.{
  sym, refl, subst₂, subst, some, [], In-append_right, inr, arith, ap, In-append_left, In-append,
  Bool-cases, ◌∷◌, ◌↔◌, inl, false, true, none, ◌++◌, ◌&&◌, ◌≡◌, not, In, Bool, Text, ℕ, Option,
}
use census.State.{ManagedGroup}
use census.Inspect.{GroupFacts}
use census.Plan.{GroupAction}
use census.Plan.Groups.{deletes_of}
use census.Plan.Groups.Checks.{missing_one, missing}
use census.Model.{created, same_provenance}

-- What each kind of action stands for; the membership-driven diff emits two kinds.
abbrev pub GroupJustified :
    Map (Option ℕ) → Map ManagedGroup → (Text → Option GroupFacts) → GroupAction → Type 0
GroupJustified required managed facts (GroupAction.create n pin) =
    In (n, pin) required × (facts n ≡ none)
GroupJustified required managed facts (GroupAction.delete n) =
    (mg : ManagedGroup) × In (n, mg) managed
    × (mg.provenance ≡ created)
    × (Map.contains_key n required ≡ false)
GroupJustified required managed facts _ = ⊥

module _ (required : Map (Option ℕ)) (managed : Map ManagedGroup)
    (facts : Text → Option GroupFacts) where
  missing-In :
      (r : Map (Option ℕ)) (n : Text) (pin : Option ℕ)
      → In (n, pin) r
      → facts n ≡ none
      → In (GroupAction.create n pin) (missing r facts)
  unfolding missing
  missing-In [] n pin i e = absurd i
  missing-In ((m, p) ∷ r) n pin (inl q) e =
      let a : n ≡ m = ap (λ (x : Text × Option ℕ). x.0) q in
      let b : pin ≡ p = ap (λ (x : Text × Option ℕ). x.1) q in
      rw (subst (λ x. facts x ≡ none) a e) (inl (cc (a, b)))
  missing-In ((m, p) ∷ r) n pin (inr i) e =
      In-append_right _ (missing_one m p (facts m)) _ (missing-In r n pin i e)

  missing_one-Justified :
      (n : Text) (pin : Option ℕ) (f : Option GroupFacts) (a : GroupAction)
      → In a (missing_one n pin f)
      → (a ≡ GroupAction.create n pin) × (f ≡ none)
  missing_one-Justified n pin none a (inl q) = (q, refl)
  missing_one-Justified n pin none a (inr i) = absurd i
  missing_one-Justified n pin (some f) a i = absurd i

  missing-created :
      (r : Map (Option ℕ)) (a : GroupAction)
      → In a (missing r facts)
      → (n : Text) × (pin : Option ℕ) × (a ≡ GroupAction.create n pin)
        × In (n, pin) r
        × (facts n ≡ none)
  unfolding missing
  missing-created [] a i = absurd i
  missing-created ((m, p) ∷ r) a i = elim (In-append a (missing_one m p (facts m)) _ i) [
    | inl l ↦ let s = missing_one-Justified m p (facts m) a l in (m, p, s.0, inl refl, s.1)
    | inr k ↦ let s = missing-created r a k in (s.0, s.1, s.2, inr s.3, s.4)
  ]

  delete_test : Text → ManagedGroup → Bool
  delete_test name mg =
      not (Map.contains_key name required) && same_provenance mg.provenance created

  delete_test_iff :
      (name : Text) (mg : ManagedGroup)
      → (delete_test name mg ≡ true)
        ↔ ((mg.provenance ≡ created) × (Map.contains_key name required ≡ false))
  unfolding delete_test same_provenance
  delete_test_iff name mg = (λ h. ground arith, λ h. ground arith)

  deletes-In :
      (m : Map ManagedGroup) (n : Text) (mg : ManagedGroup)
      → In (n, mg) m
      → mg.provenance ≡ created
      → Map.contains_key n required ≡ false
      → In (GroupAction.delete n) (deletes_of required m)
  unfolding deletes_of delete_test
  deletes-In [] n mg i p e = absurd i
  deletes-In ((k, g) ∷ m) n mg (inl q) p e =
      let a : n ≡ k = ap (λ (x : Text × ManagedGroup). x.0) q in
      let b : mg ≡ g = ap (λ (x : Text × ManagedGroup). x.1) q in
      let t : delete_test k g ≡ true =
        subst₂ (λ x y. delete_test x y ≡ true) a b ((delete_test_iff n mg).1 (p, e)) in
      rw t (inl (ap GroupAction.delete a))
  deletes-In ((k, g) ∷ m) n mg (inr i) p e = elim (Bool-cases (delete_test k g)) [
    | inl t ↦ rw t (inr (deletes-In m n mg i p e))
    | inr t ↦ rw t (deletes-In m n mg i p e)
  ]

  deletes-deleted :
      (m : Map ManagedGroup) (a : GroupAction)
      → In a (deletes_of required m)
      → (n : Text) × (a ≡ GroupAction.delete n)
        × ((mg : ManagedGroup) × In (n, mg) m
            × (mg.provenance ≡ created)
            × (Map.contains_key n required ≡ false))
  unfolding deletes_of delete_test
  deletes-deleted [] a i = absurd i
  deletes-deleted ((k, g) ∷ m) a i = elim (Bool-cases (delete_test k g)) [
    | inr t ↦
        let s = deletes-deleted m a (rw t at i) in (s.0, s.1, (s.2.0, inr s.2.1, s.2.2, s.2.3))
    | inl t ↦
        let j : In a (GroupAction.delete k ∷ deletes_of required m) = rw t at i in
        elim j [
          | inl q ↦ let r = (delete_test_iff k g).0 t in (k, q, (g, inl refl, r.0, r.1))
          | inr l ↦ let s = deletes-deleted m a l in (s.0, s.1, (s.2.0, inr s.2.1, s.2.2, s.2.3))
        ]
  ]

  -- The actions are exactly the justified ones: a create for each required group that is not live,
  -- with its pin, and a delete for each recorded group that Census created and nothing requires.
  -- An adopted group is never deleted, and this diff never adopts, updates or releases.
  pub group_actions_iff :
      (a : GroupAction)
      → In a (missing required facts ++ deletes_of required managed)
        ↔ GroupJustified required managed facts a
  group_actions_iff a = (
    λ i. elim (In-append a (missing required facts) _ i) [
      | inl l ↦
          let s = missing-created required a l in
          subst (GroupJustified required managed facts) (sym s.2) (s.3, s.4)
      | inr r ↦
          let s = deletes-deleted managed a r in
          subst (GroupJustified required managed facts) (sym s.1) s.2
    ],
    back a,
  )
    where
      back :
          (b : GroupAction)
          → GroupJustified required managed facts b
          → In b (missing required facts ++ deletes_of required managed)
      back (GroupAction.create n pin) j =
          In-append_left _ (missing required facts) _ (missing-In required n pin j.0 j.1)
      back (GroupAction.delete n) j =
          In-append_right _ (missing required facts) _ (deletes-In managed n j.0 j.1 j.2 j.3)
      back (GroupAction.adopt n) j = absurd j
      back (GroupAction.release n) j = absurd j
      back (GroupAction.update n l) j = absurd j
